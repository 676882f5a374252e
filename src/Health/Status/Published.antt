-- ===== src/Health/Status/Published.antt =====
-- What is written of a gateway, and that it is what the check has seen.
-- A write of a status to the device at its place in the target.
use multiple_protocol_contro.Common.{==_refl, Bool-cases, List, Option, Text, [], and_true, ap}
use multiple_protocol_contro.Common.{arith, get_elem?, inl, inr, map, none, refl, some, suc, sym}
use multiple_protocol_contro.Common.{text_eq, text_eq_refl, text_eq→eq, true, zero, ℕ, ◌&&◌, ◌+◌}
use multiple_protocol_contro.Common.{◌==◌, ◌∙◌, ◌∷◌, ◌≡◌, ◌⊎◌}
use multiple_protocol_contro.Common.Int.{ℤ}
use multiple_protocol_contro.Health.Probe.{GatewayProbeResult, GatewayProbeState, Manager, Round}
use multiple_protocol_contro.Health.Probe.{check_found, check_gateway, find_target, probe_busy}
use multiple_protocol_contro.Health.Probe.{probe_healthy, probe_stale, probe_unhealthy}
use multiple_protocol_contro.Health.Probe.{probe_unknown}
use multiple_protocol_contro.Health.Probe.Sound.{Evidence, check_gateway-Evidence, either_branch}
use multiple_protocol_contro.Health.Status.{GatewayStatusPayload, StatusWrite, check_target}
use multiple_protocol_contro.Health.Status.{gateway_status_from_probe, gateway_status_key}
use multiple_protocol_contro.Health.Status.{gateway_status_offline, gateway_status_online}
use multiple_protocol_contro.Health.Status.{same_target, texts_equal, write_ids, write_status}
use multiple_protocol_contro.Health.Targets.{GatewayTarget}
use mathlib.Core.Path.{subst}
use native.Mathlib.Nat.{add-zero}

pub record Write (generation_at : ℕ → ℕ) (g : ℕ) (ids : List Text) (first i : ℕ) (w : StatusWrite)
    : Type 0 where
  pub written_id : Text
  pub in_place : get_elem? ids i ≡ some written_id
  pub under_key : w.redis_key ≡ gateway_status_key written_id
  pub current : generation_at (first + i) ≡ g

pub texts_equal→eq : (xs ys : List Text) → texts_equal xs ys ≡ true → xs ≡ ys
unfolding texts_equal
texts_equal→eq [] [] h = refl
texts_equal→eq [] (y ∷ ys) h = cc
texts_equal→eq (x ∷ xs) [] h = cc
texts_equal→eq (x ∷ xs) (y ∷ ys) h =
    let (e, es) = and_true (text_eq x y) (texts_equal xs ys) h in
    rw (text_eq→eq x y e, texts_equal→eq xs ys es) refl

texts_equal_refl : (xs : List Text) → texts_equal xs xs ≡ true
unfolding texts_equal
texts_equal_refl [] = refl
texts_equal_refl (x ∷ xs) = rw (text_eq_refl x) (texts_equal_refl xs)

module _ (generation_at : ℕ → ℕ) (g : ℕ) (payload : GatewayStatusPayload) (ttl : ℕ) where
  abbrev write_of : Text → StatusWrite
  write_of id = record { redis_key = gateway_status_key id; payload = payload; ttl = ttl }

  abbrev WriteOf : ℕ → List Text → ℕ → StatusWrite → Type 0
  WriteOf first ids i w = Write generation_at g ids first i w × (w.payload ≡ payload)

  generation_eq : (n : ℕ) → (generation_at n == g) ≡ true → generation_at n ≡ g
  generation_eq n h = ground arith

  first_Write :
      (first : ℕ) (id : Text) (ids : List Text) (w : StatusWrite)
      → generation_at first ≡ g
      → w ≡ write_of id
      → WriteOf first (id ∷ ids) zero w
  first_Write first id ids w now e = rw e (
    record {
      written_id = id;
      in_place = refl;
      under_key = refl;
      current = ap generation_at (add-zero first) ∙ now;
    },
    refl,
  )

  later_Write :
      (first : ℕ) (id : Text) (ids : List Text) (i : ℕ) (w : StatusWrite)
      → WriteOf (suc first) ids i w
      → WriteOf first (id ∷ ids) (suc i) w
  later_Write first id ids i w (h, e) = (
    record {
      written_id = h.written_id;
      in_place = h.in_place;
      under_key = h.under_key;
      current = ap generation_at (omega arith) ∙ h.current;
    },
    e,
  )

  write_ids-Write :
      (first : ℕ) (ids : List Text) (i : ℕ) (w : StatusWrite)
      → get_elem? (write_ids generation_at g payload ttl first ids) i ≡ some w
      → WriteOf first ids i w
  unfolding write_ids
  write_ids-Write first [] i w h = absurd cc
  write_ids-Write first (id ∷ ids) zero w h = elim (Bool-cases (generation_at first == g)) [
    | inl now ↦
        let e : some (write_of id) ≡ some w = rw now at h in
        first_Write first id ids w (generation_eq first now) cc
    | inr changed ↦ absurd (cc (rw changed at h))
  ]
  write_ids-Write first (id ∷ ids) (suc i) w h = elim (Bool-cases (generation_at first == g)) [
    | inl now ↦ later_Write first id ids i w (write_ids-Write (suc first) ids i w (rw now at h))
    | inr changed ↦ absurd (cc (rw changed at h))
  ]

  write_ids-all :
      (first : ℕ) (ids : List Text)
      → ((n : ℕ) → generation_at n ≡ g)
      → map (λ w. w.redis_key) (write_ids generation_at g payload ttl first ids)
        ≡ map gateway_status_key ids
  unfolding write_ids
  write_ids-all first [] still = refl
  write_ids-all first (id ∷ ids) still =
      rw (still first, ==_refl g)
        (ap (λ l. gateway_status_key id ∷ l) (write_ids-all (suc first) ids still))

module _ (generation_at : ℕ → ℕ) (now : ℤ) (ttl : ℕ) (t : GatewayTarget) where
  -- A write of the result of a probe.
  record Passed (r : GatewayProbeResult) (i : ℕ) (w : StatusWrite) : Type 0 where
    write : Write generation_at r.generation t.device_ids 1 i w
    status_of_probe : gateway_status_from_probe r.state ≡ some w.payload.status
    same_ids : r.target.device_ids ≡ t.device_ids

  write_status-Passed :
      (o : Option Text) (r : GatewayProbeResult) (i : ℕ) (w : StatusWrite)
      → gateway_status_from_probe r.state ≡ o
      → get_elem? (write_status generation_at now ttl t r o) i ≡ some w
      → Passed r i w
  unfolding write_status same_target
  write_status-Passed none r i w e h = absurd cc
  write_status-Passed (some s) r i w e h =
      elim (Bool-cases (generation_at 0 == r.generation && same_target r.target t)) [
        | inl good ↦
            let (begun, same) = and_true (generation_at 0 == r.generation) _ good in
            let (same_key, ids) = and_true (text_eq r.target.key t.key) _ same in
            let (write, e') =
              write_ids-Write generation_at r.generation _ ttl 1 t.device_ids i w (rw good at h) in
            record {
              write = write;
              status_of_probe = e ∙ ap (λ p. some p.status) (sym e');
              same_ids = texts_equal→eq r.target.device_ids t.device_ids ids;
            }
        | inr bad ↦ absurd (cc (rw bad at h))
      ]

  check_target-Passed :
      (r : GatewayProbeResult) (i : ℕ) (w : StatusWrite)
      → get_elem? (check_target generation_at now ttl t r) i ≡ some w
      → Passed r i w
  unfolding check_target
  check_target-Passed r i w h = write_status-Passed (gateway_status_from_probe r.state) r i w refl h

  -- While the generation stays that of the probe, all devices of the target are written, in order.
  pub check_target-all :
      (r : GatewayProbeResult) (s : Text)
      → gateway_status_from_probe r.state ≡ some s
      → r.target ≡ t
      → ((n : ℕ) → generation_at n ≡ r.generation)
      → map (λ w. w.redis_key) (check_target generation_at now ttl t r)
        ≡ map gateway_status_key t.device_ids
  unfolding check_target write_status same_target
  check_target-all r s e same still =
      rw (e, still 0, ==_refl r.generation, same, text_eq_refl t.key, texts_equal_refl t.device_ids)
        (write_ids-all generation_at r.generation _ ttl 1 t.device_ids still)

-- What stands behind a write: the evidence of a healthy check for "0", of an unhealthy one for "1".
abbrev pub Behind : Round → Text → ℕ → Manager → Manager → Text → Type 0
Behind r k g begin end status =
    ((status ≡ gateway_status_online) × Evidence r k g begin probe_healthy end)
    ⊎ ((status ≡ gateway_status_offline) × Evidence r k g begin probe_unhealthy end)

Behind-state :
    (r : Round) (k : Text) (g : ℕ) (begin end : Manager) (s : GatewayProbeState) (status : Text)
    → gateway_status_from_probe s ≡ some status
    → Evidence r k g begin s end
    → Behind r k g begin end status
unfolding gateway_status_from_probe
Behind-state r k g begin end probe_healthy status e h = inl (cc, h)
Behind-state r k g begin end probe_unhealthy status e h = inr (cc, h)
Behind-state r k g begin end probe_unknown status e h = absurd cc
Behind-state r k g begin end probe_busy status e h = absurd cc
Behind-state r k g begin end probe_stale status e h = absurd cc

module _ (r : Round) (m : Manager) (generation_at : ℕ → ℕ) (t : GatewayTarget) where
  -- A write of a check that began with the manager `m`.
  pub record Published (i : ℕ) (w : StatusWrite) : Type 0 where
    pub write : Write generation_at m.config_generation t.device_ids 1 i w
    pub configured : GatewayTarget
    pub found : find_target t.key m.gateway_targets ≡ some configured
    pub same_ids : configured.device_ids ≡ t.device_ids
    pub behind : Behind r t.key m.config_generation m (check_gateway r t.key m).1 w.payload.status

  check_found-result :
      (k : Text) (o : Option GatewayTarget) (s : Text)
      → gateway_status_from_probe (check_found r k o m).0.state ≡ some s
      → (o ≡ some (check_found r k o m).0.target)
        × ((check_found r k o m).0.generation ≡ m.config_generation)
  unfolding check_found gateway_status_from_probe
  check_found-result k none s e = absurd cc
  check_found-result k (some t') s e =
      either_branch r.is_done
        (λ (p : GatewayProbeResult × Manager).
          (some t' ≡ some p.0.target) × (p.0.generation ≡ m.config_generation))
        (refl, refl) (refl, refl)

  -- Whatever other goroutines do, each status that is written of a gateway goes to the device at its place
  -- in the target, which the configuration at the start of the check has under that key with the same
  -- devices, and is written right after the generation was seen to be the same still. "0" has behind it a
  -- connection of the gateway in the pool, with keepalive and established, or one that was dialed and stored
  -- in that generation; and "1" a dead connection of the gateway in the pool, or a dial that failed.
  pub check_target-Published :
      (now : ℤ) (ttl i : ℕ) (w : StatusWrite)
      → get_elem? (check_target generation_at now ttl t (check_gateway r t.key m).0) i ≡ some w
      → Published i w
  unfolding check_gateway
  check_target-Published now ttl i w h =
      let result = (check_gateway r t.key m).0 in
      let p = check_target-Passed generation_at now ttl t result i w h in
      let (found, same) =
        check_found-result t.key (find_target t.key m.gateway_targets) w.payload.status
          p.status_of_probe in
      record {
        write = subst (λ g. Write generation_at g t.device_ids 1 i w) same p.write;
        configured = result.target;
        found = found;
        same_ids = p.same_ids;
        behind =
            Behind-state r t.key m.config_generation m _ result.state w.payload.status
              p.status_of_probe (check_gateway-Evidence r t.key m);
      }
