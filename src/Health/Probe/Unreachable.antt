-- ===== src/Health/Probe/Unreachable.antt =====
-- A gateway whose socket is dead and that cannot be dialed, check after check.
use multiple_protocol_contro.Common.{Bool, Bool-cases, Option, Text, ap, arith, false}
use multiple_protocol_contro.Common.{if◌then◌else◌, inl, inr, none, refl, some, suc, text_eq_refl}
use multiple_protocol_contro.Common.{true, zero, ℕ, ◌+◌, ◌==◌, ◌∙◌, ◌≡◌}
use multiple_protocol_contro.Health.Probe.{GatewayConn, GatewayProbeResult, GatewayProbeState}
use multiple_protocol_contro.Health.Probe.{Manager, Round, after_inspection, check_found}
use multiple_protocol_contro.Health.Probe.{check_gateway, check_pooled, check_state, dialed}
use multiple_protocol_contro.Health.Probe.{drop_entry, drop_gateway_conn, failure_state}
use multiple_protocol_contro.Health.Probe.{find_target, holds_conn, inspect_pooled_gateway}
use multiple_protocol_contro.Health.Probe.{mark_busy, note_gateway_dial_failure}
use multiple_protocol_contro.Health.Probe.{pooled_gateway_conn, probe_unhealthy, probe_unknown}
use multiple_protocol_contro.Health.Probe.{set_at, socket_dead}
use multiple_protocol_contro.Health.Targets.{GatewayTarget}
use mathlib.Core.Path.{subst}

abbrev pub dead_round : Round
dead_round = record {
  is_done = false;
  others = λ n m. m;
  inspect_socket = λ c. some socket_dead;
  dial = none;
  apply_keep_alive = λ c. none;
}

-- The manager after so many checks that end so.
pub after_checks : ℕ → Text → Manager → Manager
after_checks zero k m = m
after_checks (suc n) k m = (check_gateway dead_round k (after_checks n k m)).1

-- What the checks keep, and the count of failures.
record Kept (k : Text) (t : GatewayTarget) (g count : ℕ) (m : Manager) : Type 0 where
  found : find_target k m.gateway_targets ≡ some t
  same : m.config_generation ≡ g
  counted : m.dial_failures k ≡ count

set_at-same : {A : Type 0} (k : Text) (a : A) (m : Text → A) → set_at k a m k ≡ a
unfolding set_at
set_at-same k a m = rw (text_eq_refl k) refl

module _ (k : Text) (t : GatewayTarget) (g count : ℕ) where
  drop_entry-Kept :
      (c : ℕ) (e : Option GatewayConn) (m : Manager)
      → Kept k t g count m
      → Kept k t g count (drop_entry k c e m)
  unfolding drop_entry
  drop_entry-Kept c none m h = h
  drop_entry-Kept c (some e) m h = elim (Bool-cases (holds_conn c e.conn)) [
    | inl holds ↦ rw holds (record { found = h.found; same = h.same; counted = h.counted })
    | inr gone ↦ rw gone h
  ]

  abbrev Ended : GatewayProbeState × Manager → Type 0
  Ended p = (p.0 ≡ failure_state (suc count)) × Kept k t g (suc count) p.1

  dialed-Ended : (m : Manager) → Kept k t g count m → Ended (dialed dead_round k g none m)
  unfolding dialed note_gateway_dial_failure
  dialed-Ended m h =
      let one_more : set_at k (suc (m.dial_failures k)) m.dial_failures k ≡ suc count =
        set_at-same k _ m.dial_failures ∙ ap suc h.counted in
      (ap failure_state one_more, record { found = h.found; same = h.same; counted = one_more })

  check_pooled-Ended :
      (pooled : Option ℕ × Bool) (m : Manager)
      → Kept k t g count m
      → Ended (check_pooled dead_round k g pooled m)
  unfolding check_pooled inspect_pooled_gateway after_inspection
  check_pooled-Ended (none, alive) m h = dialed-Ended m h
  check_pooled-Ended (some c, alive) m h =
      dialed-Ended (drop_gateway_conn k c m) (drop_entry-Kept c (m.conns k) m h)

  check_state-Ended :
      (m : Manager)
      → m.busy k ≡ false
      → Kept k t g count m
      → Ended (check_state dead_round k g m) × ((check_state dead_round k g m).1.busy k ≡ false)
  unfolding check_state mark_busy
  check_state-Ended m free h = rw free (
      let (e, kept) =
        check_pooled-Ended (pooled_gateway_conn k m) (mark_busy k true m)
          (record { found = h.found; same = h.same; counted = h.counted }) in
      (
        (e, record { found = kept.found; same = kept.same; counted = kept.counted }),
        set_at-same k false _,
      ))

abbrev pub probed : GatewayProbeState → GatewayTarget → ℕ → GatewayProbeResult
probed s t g = record { state = s; target = t; generation = g }

check_gateway-found :
    (k : Text) (t : GatewayTarget) (m : Manager)
    → find_target k m.gateway_targets ≡ some t
    → check_gateway dead_round k m ≡ (
      probed (check_state dead_round k m.config_generation m).0 t m.config_generation,
      (check_state dead_round k m.config_generation m).1,
    )
unfolding check_gateway check_found
check_gateway-found k t m h = rw h refl

check_gateway-Ended :
    (k : Text) (t : GatewayTarget) (g count : ℕ) (m : Manager)
    → m.busy k ≡ false
    → Kept k t g count m
    → ((check_gateway dead_round k m).0 ≡ probed (failure_state (suc count)) t g)
      × Kept k t g (suc count) (check_gateway dead_round k m).1
      × ((check_gateway dead_round k m).1.busy k ≡ false)
check_gateway-Ended k t g count m free h =
    subst
      (λ g'.
        ((check_gateway dead_round k m).0 ≡ probed (failure_state (suc count)) t g')
        × Kept k t g' (suc count) (check_gateway dead_round k m).1
        × ((check_gateway dead_round k m).1.busy k ≡ false))
      h.same
      (rw (check_gateway-found k t m h.found) (
        let ((e, kept), free') =
          check_state-Ended k t m.config_generation count m free
            (record { found = h.found; same = refl; counted = h.counted }) in
        (rw e refl, kept, free')))

after_checks-Kept :
    (n : ℕ) (k : Text) (t : GatewayTarget) (m : Manager)
    → find_target k m.gateway_targets ≡ some t
    → m.busy k ≡ false
    → Kept k t m.config_generation (n + m.dial_failures k) (after_checks n k m)
      × ((after_checks n k m).busy k ≡ false)
unfolding after_checks
after_checks-Kept zero k t m found free =
    (record { found = found; same = refl; counted = omega arith }, free)
after_checks-Kept (suc n) k t m found free =
    let (kept, free') = after_checks-Kept n k t m found free in
    let (e, kept', free'') =
      check_gateway-Ended k t m.config_generation (n + m.dial_failures k) (after_checks n k m) free'
        kept in
    (
      record { found = kept'.found; same = kept'.same; counted = omega (arith, kept'.counted) },
      free'',
    )

threshold : (n : ℕ) → failure_state (suc n) ≡ (if n == 0 then probe_unknown else probe_unhealthy)
unfolding failure_state
threshold n = ground arith

-- While the guard of a configured gateway is free and no other goroutine uses it, its socket is dead and
-- dialing it fails, its first check without an earlier failure says nothing, and every later one reports it
-- as unhealthy, under the current generation.
pub dead_gateway-unhealthy :
    (n : ℕ) (k : Text) (t : GatewayTarget) (m : Manager)
    → find_target k m.gateway_targets ≡ some t
    → m.busy k ≡ false
    → (check_gateway dead_round k (after_checks n k m)).0
      ≡ probed
          (if n + m.dial_failures k == 0 then probe_unknown else probe_unhealthy)
          t
          m.config_generation
dead_gateway-unhealthy n k t m found free =
    let (kept, free') = after_checks-Kept n k t m found free in
    let (e, kept', free'') =
      check_gateway-Ended k t m.config_generation (n + m.dial_failures k) (after_checks n k m) free'
        kept in
    e ∙ ap (λ s. probed s t m.config_generation) (threshold (n + m.dial_failures k))
