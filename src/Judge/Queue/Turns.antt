-- ===== src/Judge/Queue/Turns.antt =====
-- What each step keeps of the tokens, and that no send of a token blocks.
use multiple_protocol_contro.Common.{Bool-cases, List, Option, Option-cases, Text, [], ap, arith}
use multiple_protocol_contro.Common.{false, inl, inr, length, length-append, ltb, none, refl}
use multiple_protocol_contro.Common.{some, suc, text_eq, text_eq_refl, text_eq→eq, true, ℕ, ◌++◌}
use multiple_protocol_contro.Common.{◌+◌, ◌<◌, ◌==◌, ◌∙◌, ◌∷◌, ◌≡◌}
use multiple_protocol_contro.Judge.Config.{JudgeSourceConfig}
use multiple_protocol_contro.Judge.Queue.{Admission, DeviceQueue, Publication, Publisher, admit}
use multiple_protocol_contro.Judge.Queue.{admitted, charge, device_queue_of, enqueue, ignored}
use multiple_protocol_contro.Judge.Queue.{refusal, refused, send_ready, set_queue}
use multiple_protocol_contro.Judge.Queue.Ready.{Inv, State, Turn, pending_of, ready-le}
use multiple_protocol_contro.Judge.Queue.Tokens.{count_of, count_of-append, text_eq_sym}
use mathlib.Core.Path.{subst}

refusal-room :
    (c : JudgeSourceConfig) (x : Publication) (p : Publisher)
    → refusal c x p ≡ none
    → p.queued_publications < c.queue_size
unfolding refusal
refusal-room c x p h = ground arith

-- A publication more in the queue of its device.
one_more :
    (d : Text) (ws : List Text) (queues : Text → Option DeviceQueue) (q : DeviceQueue)
    → ((d' : Text) → count_of d' ws ≡ pending_of (queues d'))
    → length q.pending ≡ suc (pending_of (queues d))
    → (d' : Text) → count_of d' (d ∷ ws) ≡ pending_of (set_queue d (some q) queues d')
unfolding set_queue
one_more d ws queues q h k d' = elim (Bool-cases (text_eq d d')) [
  | inl e ↦
      let back : text_eq d' d ≡ true = text_eq_sym d' d ∙ e in
      let here : pending_of (queues d) ≡ pending_of (queues d') =
        ap (λ t. pending_of (queues t)) (text_eq→eq d d' e) in
      rw (e, back) (omega (arith, h d'))
  | inr e ↦ let back : text_eq d' d ≡ false = text_eq_sym d' d ∙ e in rw (e, back) (h d')
]

-- A change of one device's queue and tokens leaves the turns of the others.
pub Turn-set_queue :
    (d : Text) (q : Option DeviceQueue) (queues : Text → Option DeviceQueue) (w w' s s' : Text → ℕ)
    → ((d' : Text) → Turn (queues d') (w d') (s d'))
    → Turn q (w' d) (s' d)
    → ((d' : Text) → text_eq d d' ≡ false → (w' d' ≡ w d') × (s' d' ≡ s d'))
    → (d' : Text) → Turn (set_queue d q queues d') (w' d') (s' d')
unfolding set_queue
Turn-set_queue d q queues w w' s s' h t other_ d' = elim (Bool-cases (text_eq d d')) [
  | inl e ↦ rw e (subst (λ t. Turn q (w' t) (s' t)) (text_eq→eq d d' e) t)
  | inr e ↦ let (ew, es) = other_ d' e in rw (e, ew, es) (h d')
]

-- A token at the end of the ready list.
pub ready_again :
    (d : Text) (ds : List Text)
    → (count_of d (ds ++ (d ∷ [])) ≡ suc (count_of d ds))
      × ((d' : Text) → text_eq d d' ≡ false → count_of d' (ds ++ (d ∷ [])) ≡ count_of d' ds)
ready_again d ds = (
  count_of-append d d ds ∙ (rw (text_eq_refl d) refl),
  λ d' e.
      let back : text_eq d' d ≡ false = text_eq_sym d' d ∙ e in
      count_of-append d' d ds ∙ (rw back refl),
)

module _ (c : JudgeSourceConfig) where
  admit-new :
      (x : Publication) (s : State)
      → Inv c s
      → s.publisher.queued_publications < c.queue_size
      → s.publisher.device_queues x.device_id ≡ none
      → (p' : Publisher) × (admit c x s.publisher ≡ some p') × Inv c (record s { publisher = p' })
  unfolding admit charge send_ready
  admit-new x s v room e =
      let p = s.publisher in
      let d = x.device_id in
      let open_ : ltb (length p.ready_devices) c.queue_size ≡ true =
        ground (arith, ready-le c s v) in
      let idle : Turn none (count_of d p.ready_devices + s.taken d) (s.serving d) =
        subst (λ q. Turn q (count_of d p.ready_devices + s.taken d) (s.serving d)) e (v.turn d) in
      let (one, others) = ready_again d p.ready_devices in
      let p' = record (charge x p) { ready_devices = p.ready_devices ++ (d ∷ []) } in
      (
        p',
        rw (e, open_) refl,
        record {
          waiting = d ∷ v.waiting;
          pending = one_more d v.waiting p.device_queues _ v.pending (rw e refl);
          counted = omega (arith, v.counted);
          bounded = omega (arith, v.bounded);
          turn =
              Turn-set_queue d _ p.device_queues (λ t. count_of t p.ready_devices + s.taken t)
                (λ t. count_of t (p.ready_devices ++ (d ∷ [])) + s.taken t) s.serving s.serving
                v.turn
                (
                  refl,
                  omega (arith, idle.0, idle.1, one),
                  λ h. omega (arith, length-append (device_queue_of x p).pending (x ∷ [])),
                )
                (λ t h. (omega (arith, others t h), refl));
        },
      )

  admit-old :
      (x : Publication) (s : State) (q : DeviceQueue)
      → Inv c s
      → s.publisher.queued_publications < c.queue_size
      → s.publisher.device_queues x.device_id ≡ some q
      → (p' : Publisher) × (admit c x s.publisher ≡ some p') × Inv c (record s { publisher = p' })
  unfolding admit charge
  admit-old x s q v room e =
      let p = s.publisher in
      let d = x.device_id in
      let turn_of : Turn (some q) (count_of d p.ready_devices + s.taken d) (s.serving d) =
        subst (λ q. Turn q (count_of d p.ready_devices + s.taken d) (s.serving d)) e (v.turn d) in
      (
        charge x p,
        rw (e, turn_of.0) refl,
        record {
          waiting = d ∷ v.waiting;
          pending =
              one_more d v.waiting p.device_queues _ v.pending
                (rw e (omega (arith, length-append q.pending (x ∷ []))));
          counted = omega (arith, v.counted);
          bounded = omega (arith, v.bounded);
          turn =
              Turn-set_queue d _ p.device_queues (λ t. count_of t p.ready_devices + s.taken t)
                (λ t. count_of t p.ready_devices + s.taken t) s.serving s.serving v.turn
                (
                  refl,
                  turn_of.1,
                  λ h. omega (arith, length-append (device_queue_of x p).pending (x ∷ [])),
                )
                (λ t h. (refl, refl));
        },
      )

  -- An admission never blocks and keeps the invariant.
  pub enqueue-Inv :
      (x : Publication) (s : State)
      → Inv c s
      → (a : Admission) × (p' : Publisher) × (enqueue c x s.publisher ≡ some (a, p'))
        × Inv c (record s { publisher = p' })
  unfolding enqueue
  enqueue-Inv x s v = elim (Bool-cases (length x.payload == 0)) [
    | inl e ↦ (ignored, s.publisher, rw e refl, v)
    | inr e ↦ elim (Option-cases (refusal c x s.publisher)) [
      | inr (reason, r) ↦ (refused reason, s.publisher, rw (e, r) refl, v)
      | inl r ↦ elim (Option-cases (s.publisher.device_queues x.device_id)) [
        | inl none_yet ↦
            let (p', done_, v') = admit-new x s v (refusal-room c x s.publisher r) none_yet in
            (admitted, p', rw (e, r, done_) refl, v')
        | inr (q, there) ↦
            let (p', done_, v') = admit-old x s q v (refusal-room c x s.publisher r) there in
            (admitted, p', rw (e, r, done_) refl, v')
      ]
    ]
  ]
