-- ===== src/Judge/Queue/Ready.antt =====
-- The steps of the publisher's callers and workers, in any interleaving, and the tokens of the devices.
use multiple_protocol_contro.Common.{List, Option, Text, [], arith, if◌then◌else◌, length, none}
use multiple_protocol_contro.Common.{refl, some, suc, text_eq, true, ℕ, ◌+◌, ◌-◌, ◌∷◌, ◌≡◌, ◌≤◌}
use multiple_protocol_contro.Judge.Config.{JudgeSourceConfig}
use multiple_protocol_contro.Judge.Queue.{Admission, DeviceQueue, Publication, Publisher}
use multiple_protocol_contro.Judge.Queue.{complete_publication, enqueue, new_publisher}
use multiple_protocol_contro.Judge.Queue.{next_publication}
use multiple_protocol_contro.Judge.Queue.Tokens.{count_of, length-count_of}

-- The publisher, and for each device the workers that hold its token before they take a publication
-- from its queue, and those that publish one.
pub record State : Type 0 where
  pub publisher : Publisher
  pub taken : Text → ℕ
  pub serving : Text → ℕ

abbrev pub start : State
start = record { publisher = new_publisher; taken = λ d. 0; serving = λ d. 0 }

abbrev pub plus_at : Text → (Text → ℕ) → Text → ℕ
plus_at d f d' = if text_eq d d' then suc (f d') else f d'

abbrev pub minus_at : Text → (Text → ℕ) → Text → ℕ
minus_at d f d' = if text_eq d d' then f d' - 1 else f d'

module _ (c : JudgeSourceConfig) where
  pub data Step : State → State → Type 0 where
    enqueued :
        (x : Publication) (a : Admission) {p' : Publisher} {s : State}
        → enqueue c x s.publisher ≡ some (a, p')
        → Step s (record s { publisher = p' })
    received :
        (d : Text) (ds : List Text) {s : State}
        → s.publisher.ready_devices ≡ d ∷ ds
        → Step s (record {
          publisher = record s.publisher { ready_devices = ds };
          taken = plus_at d s.taken;
          serving = s.serving;
        })
    took :
        (d : Text) (x : Publication) {p' : Publisher} {s : State}
        → 1 ≤ s.taken d
        → next_publication d s.publisher ≡ (some x, p')
        → Step s
            (record { publisher = p'; taken = minus_at d s.taken; serving = plus_at d s.serving })
    found_none :
        (d : Text) {p' : Publisher} {s : State}
        → 1 ≤ s.taken d
        → next_publication d s.publisher ≡ (none, p')
        → Step s (record { publisher = p'; taken = minus_at d s.taken; serving = s.serving })
    completed :
        (x : Publication) {p' : Publisher} {s : State}
        → 1 ≤ s.serving x.device_id
        → complete_publication c x s.publisher ≡ some p'
        → Step s
            (record { publisher = p'; taken = s.taken; serving = minus_at x.device_id s.serving })

  pub data Reachable : State → Type 0 where
    started : Reachable start
    stepped : {s s' : State} → Reachable s → Step s s' → Reachable s'

-- The tokens of a device with a queue or without one: one goes round while the queue is there, and as
-- long as no worker publishes, something is pending.
abbrev pub Turn : Option DeviceQueue → ℕ → ℕ → Type 0
Turn none waiting serving = (waiting ≡ 0) × (serving ≡ 0)
Turn (some q) waiting serving =
    (q.scheduled ≡ true) × (waiting + serving ≡ 1) × (1 ≤ waiting → 1 ≤ length q.pending)

abbrev pub pending_of : Option DeviceQueue → ℕ
pending_of none = 0
pending_of (some q) = length q.pending

-- The waiting publications, by their devices.
pub record Inv (c : JudgeSourceConfig) (s : State) : Type 0 where
  pub waiting : List Text
  pub pending : (d : Text) → count_of d waiting ≡ pending_of (s.publisher.device_queues d)
  pub counted : length waiting ≡ s.publisher.queued_publications
  pub bounded : s.publisher.queued_publications ≤ c.queue_size
  pub turn :
      (d : Text)
      → Turn
          (s.publisher.device_queues d)
          (count_of d s.publisher.ready_devices + s.taken d)
          (s.serving d)

pub start-Inv : (c : JudgeSourceConfig) → Inv c start
start-Inv c = record {
  waiting = [];
  pending = λ d. refl;
  counted = refl;
  bounded = omega arith;
  turn = λ d. (refl, refl);
}

pub Turn-pending_of :
    (q : Option DeviceQueue) (ready taken serving : ℕ)
    → Turn q (ready + taken) serving
    → ready ≤ pending_of q
Turn-pending_of none ready taken serving t = omega (arith, t.0)
Turn-pending_of (some q) ready taken serving t = ground arith

-- A ready token stands for a waiting publication.
pub ready-le :
    (c : JudgeSourceConfig) (s : State)
    → Inv c s
    → length s.publisher.ready_devices ≤ s.publisher.queued_publications
ready-le c s v =
    let fewer : length s.publisher.ready_devices ≤ length v.waiting =
      length-count_of s.publisher.ready_devices v.waiting
        (λ d. rw (v.pending d) (Turn-pending_of (s.publisher.device_queues d) _ _ _ (v.turn d))) in
    omega (arith, v.counted)
