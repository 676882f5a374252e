-- ===== src/Judge/Queue/Reachable.antt =====
-- What holds after any interleaving of callers and workers.
use multiple_protocol_contro.Common.{List, Option, Text, ap, arith, length, none, some, sym, ℕ}
use multiple_protocol_contro.Common.{◌+◌, ◌∙◌, ◌∷◌, ◌≡◌, ◌≢◌, ◌≤◌}
use multiple_protocol_contro.Judge.Config.{JudgeSourceConfig}
use multiple_protocol_contro.Judge.Queue.{Admission, DeviceQueue, Publication, Publisher}
use multiple_protocol_contro.Judge.Queue.{complete_publication, enqueue, new_publisher}
use multiple_protocol_contro.Judge.Queue.{next_publication}
use multiple_protocol_contro.Judge.Queue.Ready.{Inv, Reachable, State, Step, Turn, completed}
use multiple_protocol_contro.Judge.Queue.Ready.{enqueued, found_none, minus_at, plus_at, ready-le}
use multiple_protocol_contro.Judge.Queue.Ready.{received, start-Inv, started, stepped, took}
use multiple_protocol_contro.Judge.Queue.Service.{complete_publication-Inv, next_publication-Inv}
use multiple_protocol_contro.Judge.Queue.Tokens.{count_of, text_eq_sym}
use multiple_protocol_contro.Judge.Queue.Turns.{enqueue-Inv}
use mathlib.Core.Path.{subst}

abbrev published : Option (Admission × Publisher) → Publisher
published none = new_publisher
published (some (a, p)) = p

some-injective : {A : Type 0} {a b : A} → some a ≡ some b → a ≡ b
some-injective e = cc

-- A token that leaves the ready list for a worker.
received-Inv :
    (c : JudgeSourceConfig) (d : Text) (ds : List Text) (s : State)
    → s.publisher.ready_devices ≡ d ∷ ds
    → Inv c s
    → Inv c (record {
      publisher = record s.publisher { ready_devices = ds };
      taken = plus_at d s.taken;
      serving = s.serving;
    })
received-Inv c d ds s e v = record {
  waiting = v.waiting;
  pending = v.pending;
  counted = v.counted;
  bounded = v.bounded;
  turn = λ d'.
      subst (λ n. Turn (s.publisher.device_queues d') n (s.serving d')) (moved d') (v.turn d');
}
  where
    moved :
        (d' : Text)
        → count_of d' s.publisher.ready_devices + s.taken d' ≡ count_of d' ds + plus_at d s.taken d'
    moved d' = rw (e, text_eq_sym d' d) (ground arith)

one-Turn : (q : Option DeviceQueue) (w s : ℕ) → Turn q w s → w + s ≤ 1
one-Turn none w s t = omega (arith, t.0, t.1)
one-Turn (some q) w s t = omega (arith, t.1)

module _ (c : JudgeSourceConfig) where
  Step-Inv : {s s' : State} → Step c s s' → Inv c s → Inv c s'
  Step-Inv (enqueued x a {p'} {s} e) v =
      let (a0, p0, e0, v0) = enqueue-Inv c x s v in
      let same : p0 ≡ p' = ap (λ (r : Option (Admission × Publisher)). published r) (sym e0 ∙ e) in
      subst (λ p. Inv c (record s { publisher = p })) same v0
  Step-Inv (received d ds {s} e) v = received-Inv c d ds s e v
  Step-Inv (took d x {p'} {s} h e) v =
      let (x0, p0, e0, v0) = next_publication-Inv c d s v h in
      let same : p0 ≡ p' = ap (λ (r : Option Publication × Publisher). r.1) (sym e0 ∙ e) in
      subst
        (λ p.
          Inv c
            (record { publisher = p; taken = minus_at d s.taken; serving = plus_at d s.serving }))
        same v0
  Step-Inv (found_none d {p'} {s} h e) v =
      let (x0, p0, e0, v0) = next_publication-Inv c d s v h in cc
  Step-Inv (completed x {p'} {s} h e) v =
      let (p0, e0, v0) = complete_publication-Inv c x s v h in
      let same : p0 ≡ p' = some-injective (sym e0 ∙ e) in
      subst
        (λ p.
          Inv c
            (record { publisher = p; taken = s.taken; serving = minus_at x.device_id s.serving }))
        same v0

  Reachable-Inv : {s : State} → Reachable c s → Inv c s
  Reachable-Inv started = start-Inv c
  Reachable-Inv (stepped r st) = Step-Inv st (Reachable-Inv r)

  -- In every interleaving of enqueues and workers, under any limits: the send of a ready token with the
  -- lock held never blocks, neither an enqueue nor a completed publication; a worker that has received
  -- a device's token always finds a publication; a device never has more than one token or worker; and
  -- the queue's size is a bound of the waiting publications and of the ready tokens.
  pub queue_safe :
      (s : State)
      → Reachable c s
      → ((x : Publication) → enqueue c x s.publisher ≢ none)
        × ((x : Publication)
            → 1 ≤ s.serving x.device_id
            → complete_publication c x s.publisher ≢ none)
        × ((d : Text) → 1 ≤ s.taken d → (next_publication d s.publisher).0 ≢ none)
        × ((d : Text) → count_of d s.publisher.ready_devices + s.taken d + s.serving d ≤ 1)
        × (s.publisher.queued_publications ≤ c.queue_size)
        × (length s.publisher.ready_devices ≤ c.queue_size)
  queue_safe s r =
      let v = Reachable-Inv r in
      (
        λ x e. let (a, p, e0, v0) = enqueue-Inv c x s v in cc,
        λ x h e. let (p, e0, v0) = complete_publication-Inv c x s v h in cc,
        λ d h e. let (x, p, e0, v0) = next_publication-Inv c d s v h in cc,
        λ d. one-Turn (s.publisher.device_queues d) _ _ (v.turn d),
        v.bounded,
        omega (arith, ready-le c s v, v.bounded),
      )
