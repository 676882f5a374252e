-- ===== src/Judge/Queue/Service.antt =====
-- What a worker does between receiving a device's token and releasing its publication.
use multiple_protocol_contro.Common.{Bool-cases, List, Option, Option-cases, Text, [], ap, arith}
use multiple_protocol_contro.Common.{false, inl, inr, length, ltb, none, refl, some, suc, sym}
use multiple_protocol_contro.Common.{text_eq, text_eq_refl, text_eq→eq, true, ℕ, ◌++◌, ◌+◌, ◌-◌}
use multiple_protocol_contro.Common.{◌∙◌, ◌∷◌, ◌≡◌, ◌≤◌}
use multiple_protocol_contro.Judge.Config.{JudgeSourceConfig}
use multiple_protocol_contro.Judge.Queue.{DeviceQueue, Publication, Publisher, complete_in}
use multiple_protocol_contro.Judge.Queue.{complete_publication, next_in, next_of}
use multiple_protocol_contro.Judge.Queue.{next_publication, nothing_pending, release, send_ready}
use multiple_protocol_contro.Judge.Queue.{set_queue}
use multiple_protocol_contro.Judge.Queue.Ready.{Inv, State, Turn, minus_at, pending_of, plus_at}
use multiple_protocol_contro.Judge.Queue.Ready.{Turn-pending_of}
use multiple_protocol_contro.Judge.Queue.Tokens.{count_of, count_of-without_other}
use multiple_protocol_contro.Judge.Queue.Tokens.{count_of-without_same, length-count_of}
use multiple_protocol_contro.Judge.Queue.Tokens.{length-without, text_eq_sym, without}
use multiple_protocol_contro.Judge.Queue.Turns.{ready_again, Turn-set_queue}
use mathlib.Core.Path.{subst}

one_less :
    (d : Text) (ws : List Text) (queues : Text → Option DeviceQueue) (q : DeviceQueue)
    → ((d' : Text) → count_of d' ws ≡ pending_of (queues d'))
    → pending_of (queues d) ≡ suc (length q.pending)
    → (d' : Text) → count_of d' (without d ws) ≡ pending_of (set_queue d (some q) queues d')
unfolding set_queue
one_less d ws queues q h k d' = elim (Bool-cases (text_eq d d')) [
  | inl e ↦
      let at_d : count_of d (without d ws) ≡ length q.pending =
        omega (arith, h d, k, count_of-without_same d ws (omega (arith, h d, k))) in
      rw e (subst (λ t. count_of t (without d ws) ≡ length q.pending) (text_eq→eq d d' e) at_d)
  | inr e ↦
      let back : text_eq d' d ≡ false = text_eq_sym d' d ∙ e in
      rw e (count_of-without_other d d' ws back ∙ h d')
]

same_pending :
    (d : Text) (ws : List Text) (queues : Text → Option DeviceQueue) (q : Option DeviceQueue)
    → ((d' : Text) → count_of d' ws ≡ pending_of (queues d'))
    → pending_of (queues d) ≡ pending_of q
    → (d' : Text) → count_of d' ws ≡ pending_of (set_queue d q queues d')
unfolding set_queue
same_pending d ws queues q h k d' = elim (Bool-cases (text_eq d d')) [
  | inl e ↦ rw e (subst (λ t. count_of t ws ≡ pending_of q) (text_eq→eq d d' e) (h d ∙ k))
  | inr e ↦ rw e (h d')
]

at_own : (d : Text) (f : Text → ℕ) → (minus_at d f d ≡ f d - 1) × (plus_at d f d ≡ suc (f d))
at_own d f = (rw (text_eq_refl d) refl, rw (text_eq_refl d) refl)

at_other :
    (d d' : Text) (f : Text → ℕ)
    → text_eq d d' ≡ false
    → (minus_at d f d' ≡ f d') × (plus_at d f d' ≡ f d')
at_other d d' f h = (rw h refl, rw h refl)

nothing_pending-length : (xs : List Publication) → nothing_pending xs ≡ true → length xs ≡ 0
nothing_pending-length [] h = refl
nothing_pending-length (x ∷ xs) h = cc

some_pending-length : (xs : List Publication) → nothing_pending xs ≡ false → 1 ≤ length xs
some_pending-length [] h = cc
some_pending-length (x ∷ xs) h = omega arith

module _ (c : JudgeSourceConfig) where
  -- The turn of a device whose queue is known.
  known-Turn :
      (d : Text) (s : State) {q : Option DeviceQueue}
      → Inv c s
      → s.publisher.device_queues d ≡ q
      → Turn q (count_of d s.publisher.ready_devices + s.taken d) (s.serving d)
  known-Turn d s v e =
      subst (λ q. Turn q (count_of d s.publisher.ready_devices + s.taken d) (s.serving d)) e
        (v.turn d)

  next_of-Inv :
      (d : Text) (s : State) (q : DeviceQueue) (x : Publication) (xs : List Publication)
      → Inv c s
      → 1 ≤ s.taken d
      → s.publisher.device_queues d ≡ some q
      → length q.pending ≡ suc (length xs)
      → Inv c (record {
        publisher = record s.publisher {
          device_queues = set_queue d (some (record q { pending = xs })) s.publisher.device_queues;
          queued_publications = s.publisher.queued_publications - 1;
        };
        taken = minus_at d s.taken;
        serving = plus_at d s.serving;
      })
  next_of-Inv d s q x xs v h e k =
      let p = s.publisher in
      let t = known-Turn d s v e in
      let held : pending_of (p.device_queues d) ≡ suc (length xs) = rw e k in
      let some_waiting : 1 ≤ count_of d v.waiting = omega (arith, v.pending d, held) in
      record {
        waiting = without d v.waiting;
        pending = one_less d v.waiting p.device_queues (record q { pending = xs }) v.pending held;
        counted = omega (arith, v.counted, length-without d v.waiting some_waiting);
        bounded = omega (arith, v.bounded);
        turn =
            Turn-set_queue d _ p.device_queues (λ t. count_of t p.ready_devices + s.taken t)
              (λ t. count_of t p.ready_devices + minus_at d s.taken t) s.serving
              (plus_at d s.serving) v.turn
              (rw ((at_own d s.taken).0, (at_own d s.serving).1)
                (t.0, omega (arith, t.1), λ w. absurd (omega (arith, t.1))))
              (λ t h. (omega (arith, at_other d t s.taken h), (at_other d t s.serving h).1));
      }

  -- A worker that has received the token of a device finds a publication in its queue.
  pub next_publication-Inv :
      (d : Text) (s : State)
      → Inv c s
      → 1 ≤ s.taken d
      → (x : Publication) × (p' : Publisher) × (next_publication d s.publisher ≡ (some x, p'))
        × Inv c
            (record { publisher = p'; taken = minus_at d s.taken; serving = plus_at d s.serving })
  unfolding next_publication next_in next_of
  next_publication-Inv d s v h = elim (Option-cases (s.publisher.device_queues d)) [
    | inl e ↦ absurd (omega (arith, (known-Turn d s v e).0))
    | inr (q, e) ↦ found q e q.pending refl
  ]
    where
      found :
          (q : DeviceQueue)
          → s.publisher.device_queues d ≡ some q
          → (xs : List Publication) → q.pending ≡ xs
          → (x : Publication) × (p' : Publisher) × (next_publication d s.publisher ≡ (some x, p'))
            × Inv c (record {
              publisher = p';
              taken = minus_at d s.taken;
              serving = plus_at d s.serving;
            })
      found q e [] k = absurd (omega (arith, (known-Turn d s v e).2 (omega arith), ap length k))
      found q e (x ∷ xs) k = (
        x,
        (next_of d s.publisher (x ∷ xs) q).1,
        rw (e, k) refl,
        next_of-Inv d s q x xs v h e (ap length k),
      )

  -- While a worker publishes for a device with something pending, there is room for its token.
  token_room :
      (d : Text) (s : State) (q : DeviceQueue)
      → Inv c s
      → 1 ≤ s.serving d
      → s.publisher.device_queues d ≡ some q
      → 1 ≤ length q.pending
      → suc (length s.publisher.ready_devices) ≤ s.publisher.queued_publications
  token_room d s q v h e k =
      let p = s.publisher in
      let t = known-Turn d s v e in
      let held : 1 ≤ pending_of (p.device_queues d) = rw e k in
      let fewer : length (d ∷ p.ready_devices) ≤ length v.waiting =
        length-count_of (d ∷ p.ready_devices) v.waiting (λ d'.
          rw (v.pending d') (elim (Bool-cases (text_eq d' d)) [
            | inl same ↦
                let here : d' ≡ d = text_eq→eq d' d same in
                let none_ready : count_of d' p.ready_devices ≡ 0 =
                  subst (λ t. count_of t p.ready_devices ≡ 0) (sym here) (omega (arith, t.1)) in
                let held' : 1 ≤ pending_of (p.device_queues d') =
                  subst (λ t. 1 ≤ pending_of (p.device_queues t)) (sym here) held in
                rw (same, none_ready) held'
            | inr apart ↦ rw apart (Turn-pending_of (p.device_queues d') _ _ _ (v.turn d'))
          ])) in
      omega (arith, fewer, v.counted)

  -- A worker that releases its publication never blocks on the token that it sends.
  pub complete_publication-Inv :
      (x : Publication) (s : State)
      → Inv c s
      → 1 ≤ s.serving x.device_id
      → (p' : Publisher) × (complete_publication c x s.publisher ≡ some p')
        × Inv c
            (record { publisher = p'; taken = s.taken; serving = minus_at x.device_id s.serving })
  unfolding complete_publication complete_in release send_ready
  complete_publication-Inv x s v h = elim (Option-cases (s.publisher.device_queues x.device_id)) [
    | inl e ↦ absurd (omega (arith, (known-Turn x.device_id s v e).1))
    | inr (q, e) ↦ elim (Bool-cases (nothing_pending q.pending)) [
      | inl drained ↦
          let p = s.publisher in
          let d = x.device_id in
          let t = known-Turn d s v e in
          let zero_pending : length q.pending ≡ 0 = nothing_pending-length q.pending drained in
          let p' = release x p q in
          (
            p',
            rw (e, drained) refl,
            record {
              waiting = v.waiting;
              pending =
                  rw drained
                    (same_pending d v.waiting p.device_queues none v.pending (rw e zero_pending));
              counted = v.counted;
              bounded = v.bounded;
              turn = rw drained (
                  Turn-set_queue d none p.device_queues
                    (λ t. count_of t p.ready_devices + s.taken t)
                    (λ t. count_of t p.ready_devices + s.taken t) s.serving (minus_at d s.serving)
                    v.turn (rw (at_own d s.serving).0 (omega (arith, t.1), omega (arith, t.1)))
                    (λ t h. (refl, (at_other d t s.serving h).0)));
            },
          )
      | inr more ↦
          let p = s.publisher in
          let d = x.device_id in
          let t = known-Turn d s v e in
          let some_pending : 1 ≤ length q.pending = some_pending-length q.pending more in
          let room : ltb (length p.ready_devices) c.queue_size ≡ true =
            ground (arith, token_room d s q v h e some_pending, v.bounded) in
          let (one, others) = ready_again d p.ready_devices in
          let p' = record (release x p q) { ready_devices = p.ready_devices ++ (d ∷ []) } in
          (
            p',
            rw (e, more, room) refl,
            record {
              waiting = v.waiting;
              pending = rw more (same_pending d v.waiting p.device_queues _ v.pending (rw e refl));
              counted = v.counted;
              bounded = v.bounded;
              turn = rw more (
                  Turn-set_queue d _ p.device_queues (λ t. count_of t p.ready_devices + s.taken t)
                    (λ t. count_of t (p.ready_devices ++ (d ∷ [])) + s.taken t) s.serving
                    (minus_at d s.serving) v.turn
                    (rw (at_own d s.serving).0 (t.0, omega (arith, t.1, one), λ w. some_pending))
                    (λ t h. (omega (arith, others t h), (at_other d t s.serving h).0)));
            },
          )
    ]
  ]
