-- ===== src/Health/Probe/Sound.antt =====
-- What a check has seen when it reports a gateway, whatever other goroutines do meanwhile.
use multiple_protocol_contro.Common.{Bool, Bool-cases, Option, Text, and_true, arith, false}
use multiple_protocol_contro.Common.{if◌then◌else◌, inl, inr, leb, none, refl, some, true, ℕ}
use multiple_protocol_contro.Common.{◌==◌, ◌≡◌, ◌⊎◌}
use multiple_protocol_contro.Health.Probe.{GatewayProbeResult, GatewayProbeState, Manager, Round}
use multiple_protocol_contro.Health.Probe.{SocketVerdict, can_store, check_busy, check_found}
use multiple_protocol_contro.Health.Probe.{check_gateway, check_pooled, check_state, dialed}
use multiple_protocol_contro.Health.Probe.{dialed_alive, failure_state, find_target}
use multiple_protocol_contro.Health.Probe.{gateway_dial_failure_threshold, inspect_pooled_gateway}
use multiple_protocol_contro.Health.Probe.{mark_busy, pooled_gateway_conn, probe_busy}
use multiple_protocol_contro.Health.Probe.{probe_healthy, probe_stale, probe_unhealthy}
use multiple_protocol_contro.Health.Probe.{probe_unknown, reset_gateway_dial_failures}
use multiple_protocol_contro.Health.Probe.{socket_dead, socket_healthy, socket_unknown}
use multiple_protocol_contro.Health.Probe.{store_gateway_conn}
use multiple_protocol_contro.Health.Targets.{GatewayTarget}

pub either_branch :
    {A : Type 0} (b : Bool) (P : A → Type 0) {x y : A} → P x → P y → P (if b then x else y)
either_branch true P p q = p
either_branch false P p q = q

module _ (r : Round) (k : Text) (g : ℕ) where
  -- A connection that was dialed and on which keepalive was set without an error is in the pool, from a
  -- section where the generation was still that of the check and the gateway was registered.
  pub record FreshConn (end : Manager) : Type 0 where
    pub fresh : ℕ
    pub alive : Bool
    pub before : Manager
    pub was_dialed : r.dial ≡ some fresh
    pub was_set : r.apply_keep_alive fresh ≡ some alive
    pub current : before.config_generation ≡ g
    pub is_registered : before.registered k ≡ true
    pub ends :
        end
        ≡ mark_busy k false
            (reset_gateway_dial_failures k (r.others 6 (store_gateway_conn k fresh alive before)))

  -- The manager that began the check as it is at the first look at the connection, and at the second,
  -- under the guard.
  abbrev pub first_look : Manager → Manager
  first_look m = r.others 0 m

  abbrev pub second_look : Manager → Manager
  second_look m = r.others 2 (mark_busy k true (r.others 1 (first_look m)))

  -- At one of the looks the pool has that connection for the gateway, with or without keepalive.
  abbrev pub Pooled : Manager → ℕ → Bool → Type 0
  Pooled m c alive =
      (pooled_gateway_conn k (first_look m) ≡ (some c, alive))
      ⊎ (pooled_gateway_conn k (second_look m) ≡ (some c, alive))

  -- The gateway's connection in the pool has keepalive, and the kernel has it as established.
  abbrev pub Alive : Manager → Type 0
  Alive m = (c : ℕ) × Pooled m c true × (r.inspect_socket c ≡ some socket_healthy)

  -- The kernel has the gateway's connection in the pool as closed.
  abbrev pub Dead : Manager → Type 0
  Dead m = (c : ℕ) × (alive : Bool) × Pooled m c alive × (r.inspect_socket c ≡ some socket_dead)

  -- The evidence for a state, of a check from `m` to `end`; no other state is published.
  abbrev pub Evidence : Manager → GatewayProbeState → Manager → Type 0
  Evidence m probe_healthy end = Alive m ⊎ FreshConn end
  Evidence m probe_unhealthy end = Dead m ⊎ (r.dial ≡ none)
  Evidence m probe_unknown end = Unit {0}
  Evidence m probe_busy end = Unit {0}
  Evidence m probe_stale end = Unit {0}

  abbrev EvidenceOf : Manager → GatewayProbeState × Manager → Type 0
  EvidenceOf m p = Evidence m p.0 (mark_busy k false p.1)

  failure_state-Evidence :
      (begin : Manager) (n : ℕ) (end : Manager)
      → r.dial ≡ none
      → Evidence begin (failure_state n) end
  unfolding failure_state
  failure_state-Evidence begin n end e = elim (Bool-cases (leb gateway_dial_failure_threshold n)) [
    | inl enough ↦ rw enough (inr e)
    | inr few ↦ rw few tt
  ]

  can_store-true :
      (m : Manager) → can_store k g m ≡ true → (m.config_generation ≡ g) × (m.registered k ≡ true)
  unfolding can_store
  can_store-true m h =
      let (e, known) = and_true (m.config_generation == g) (m.registered k) h in
      (ground arith, known)

  dialed_alive-Evidence :
      (begin : Manager) (c : ℕ) (alive : Option Bool) (m : Manager)
      → r.dial ≡ some c
      → r.apply_keep_alive c ≡ alive
      → EvidenceOf begin (dialed_alive r k g c alive m)
  unfolding dialed_alive
  dialed_alive-Evidence begin c none m e s = tt
  dialed_alive-Evidence begin c (some alive) m e s =
      elim (Bool-cases (can_store k g (r.others 5 m))) [
        | inl good ↦
            let (current, known) = can_store-true (r.others 5 m) good in
            rw good (
              inr (record {
                fresh = c;
                alive = alive;
                before = r.others 5 m;
                was_dialed = e;
                was_set = s;
                current = current;
                is_registered = known;
                ends = refl;
              }))
        | inr bad ↦ rw bad tt
      ]

  dialed-Evidence :
      (begin : Manager) (d : Option ℕ) (m : Manager)
      → r.dial ≡ d
      → EvidenceOf begin (dialed r k g d m)
  unfolding dialed
  dialed-Evidence begin none m e = failure_state-Evidence begin _ _ e
  dialed-Evidence begin (some c) m e = dialed_alive-Evidence begin c (r.apply_keep_alive c) m e refl

  -- From an inspection that does not ask for a dial.
  inspected-Evidence :
      (begin : Manager) (c : ℕ) (v : Option SocketVerdict) (alive allow_drop : Bool) (end : Manager)
      → r.inspect_socket c ≡ v
      → Pooled begin c alive
      → Evidence begin (inspect_pooled_gateway v alive allow_drop).0 end
  unfolding inspect_pooled_gateway
  inspected-Evidence begin c none alive allow_drop end e pooled = tt
  inspected-Evidence begin c (some socket_healthy) true allow_drop end e pooled = inl (c, pooled, e)
  inspected-Evidence begin c (some socket_healthy) false allow_drop end e pooled = tt
  inspected-Evidence begin c (some socket_dead) alive allow_drop end e pooled =
      inl (c, alive, pooled, e)
  inspected-Evidence begin c (some socket_unknown) alive allow_drop end e pooled = tt

  check_pooled-Evidence :
      (begin : Manager) (pooled : Option ℕ × Bool) (m : Manager)
      → pooled_gateway_conn k (second_look begin) ≡ pooled
      → EvidenceOf begin (check_pooled r k g pooled m)
  unfolding check_pooled
  check_pooled-Evidence begin (none, alive) m look =
      dialed-Evidence begin r.dial (r.others 4 m) refl
  check_pooled-Evidence begin (some c, alive) m look =
      let v = r.inspect_socket c in
      elim (Bool-cases (inspect_pooled_gateway v alive true).1) [
        | inl anew ↦ rw anew (dialed-Evidence begin r.dial _ refl)
        | inr enough ↦ rw enough (inspected-Evidence begin c v alive true _ refl (inr look))
      ]

  check_busy-Evidence :
      (begin : Manager) (pooled : Option ℕ × Bool) (m : Manager)
      → pooled_gateway_conn k (first_look begin) ≡ pooled
      → Evidence begin (check_busy r k pooled m).0 (check_busy r k pooled m).1
  unfolding check_busy
  check_busy-Evidence begin (none, alive) m look = tt
  check_busy-Evidence begin (some c, alive) m look =
      inspected-Evidence begin c (r.inspect_socket c) alive false _ refl (inl look)

  check_state-Evidence : (m : Manager) → Evidence m (check_state r k g m).0 (check_state r k g m).1
  unfolding check_state
  check_state-Evidence m =
      let m1 = r.others 1 (first_look m) in
      elim (Bool-cases (m1.busy k)) [
        | inl taken ↦
            rw taken (check_busy-Evidence m (pooled_gateway_conn k (first_look m)) m1 refl)
        | inr free ↦ rw free (check_pooled-Evidence m _ (second_look m) refl)
      ]

module _ (r : Round) (k : Text) where
  check_found-Evidence :
      (t : Option GatewayTarget) (m : Manager)
      → Evidence r k m.config_generation m (check_found r k t m).0.state (check_found r k t m).1
  unfolding check_found
  check_found-Evidence none m = tt
  check_found-Evidence (some t) m =
      either_branch r.is_done
        (λ (p : GatewayProbeResult × Manager). Evidence r k m.config_generation m p.0.state p.1) tt
        (check_state-Evidence r k m.config_generation m)

  -- A check reports a gateway as healthy where the pool had a connection of its with keepalive that the
  -- kernel has as established, or for a connection that it dialed and stored while the configuration was
  -- still the one that it began with; and as unhealthy where the connection in the pool is dead or a dial
  -- failed; whatever other goroutines do.
  pub check_gateway-Evidence :
      (m : Manager)
      → Evidence r k m.config_generation m (check_gateway r k m).0.state (check_gateway r k m).1
  unfolding check_gateway
  check_gateway-Evidence m = check_found-Evidence (find_target k m.gateway_targets) m
