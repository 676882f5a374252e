-- ===== src/Judge/Queue.antt =====
-- The queue of internal/collector/judge_source_publisher.go: admission of publications, turns of the
-- devices, and what the workers do with the lock held. `readyDevices` is a list, the longest waiting
-- device first; none is the outcome of a send that would block. The counters of the whole queue stop at
-- 0, as in the source; `outstandingCount` and `outstandingBytes` do so here.
pub mod Tokens
pub mod Ready
pub mod Turns
pub mod Service
pub mod Reachable
use multiple_protocol_contro.Common.{Bool, List, Option, Text, [], false, if◌then◌else◌, leb}
use multiple_protocol_contro.Common.{length, ltb, none, some, text_eq, true, ℕ, ◌++◌, ◌+◌, ◌-◌}
use multiple_protocol_contro.Common.{◌==◌, ◌∷◌}
use multiple_protocol_contro.Judge.Config.{JudgeSourceConfig}
use multiple_protocol_contro.Judge.FailureLog.{Reason, device_queue_bytes_full, device_queue_full}
use multiple_protocol_contro.Judge.FailureLog.{queue_bytes_full, queue_full}
use mathlib.Core.Option

pub record Publication : Type 0 where
  pub device_id : Text
  pub payload : List ℕ

pub record DeviceQueue : Type 0 where
  pub pending : List Publication
  pub scheduled : Bool
  pub outstanding_count : ℕ
  pub outstanding_bytes : ℕ

pub record Publisher : Type 0 where
  pub ready_devices : List Text
  pub device_queues : Text → Option DeviceQueue
  pub queued_publications : ℕ
  pub queue_bytes : ℕ

abbrev pub new_publisher : Publisher
new_publisher = record {
  ready_devices = [];
  device_queues = λ d. none;
  queued_publications = 0;
  queue_bytes = 0;
}

-- What `enqueue` says: the refusals carry their reason in the failure log.
pub data Admission : Type 0 where
  ignored admitted : Admission
  refused : Reason → Admission

abbrev pub new_device_queue : DeviceQueue
new_device_queue = record {
  pending = [];
  scheduled = false;
  outstanding_count = 0;
  outstanding_bytes = 0;
}

abbrev pub queue_or_new : Option DeviceQueue → DeviceQueue
queue_or_new none = new_device_queue
queue_or_new (some q) = q

unfoldable pub set_queue :
    Text → Option DeviceQueue → (Text → Option DeviceQueue) → Text → Option DeviceQueue
set_queue device q queues device' = if text_eq device device' then q else queues device'

-- `readyDevices <- device`, on a channel of the queue's size.
unfoldable pub send_ready : ℕ → Text → Publisher → Option Publisher
send_ready capacity device p =
    if ltb (length p.ready_devices) capacity
    then some (record p { ready_devices = p.ready_devices ++ (device ∷ []) })
    else none

abbrev pub device_queue_of : Publication → Publisher → DeviceQueue
device_queue_of publication p = queue_or_new (p.device_queues publication.device_id)

-- The tests of the limits, in their order; `x > max - y` is written as `max < y + x`.
unfoldable pub refusal : JudgeSourceConfig → Publication → Publisher → Option Reason
refusal c publication p =
    let q = device_queue_of publication p in
    let size = length publication.payload in
    if leb c.queue_size p.queued_publications
    then some queue_full
    else if ltb c.queue_max_bytes (p.queue_bytes + size)
    then some queue_bytes_full
    else if leb c.device_queue_size q.outstanding_count
    then some device_queue_full
    else if ltb c.device_queue_max_bytes (q.outstanding_bytes + size)
    then some device_queue_bytes_full
    else none

-- The state after the counters have been raised, before a ready token is sent.
unfoldable pub charge : Publication → Publisher → Publisher
charge publication p =
    let q = device_queue_of publication p in
    let size = length publication.payload in
    record p {
      device_queues =
          set_queue publication.device_id
            (some (record q {
              pending = q.pending ++ (publication ∷ []);
              scheduled = true;
              outstanding_count = q.outstanding_count + 1;
              outstanding_bytes = q.outstanding_bytes + size;
            }))
            p.device_queues;
      queued_publications = p.queued_publications + 1;
      queue_bytes = p.queue_bytes + size;
    }

unfoldable pub admit : JudgeSourceConfig → Publication → Publisher → Option Publisher
admit c publication p =
    if (device_queue_of publication p).scheduled
    then some (charge publication p)
    else send_ready c.queue_size publication.device_id (charge publication p)

unfoldable pub enqueue :
    JudgeSourceConfig → Publication → Publisher → Option (Admission × Publisher)
enqueue c publication p =
    if length publication.payload == 0 then some (ignored, p) else elim (refusal c publication p) [
      | some reason ↦ some (refused reason, p)
      | none ↦ Option.map (λ p'. (admitted, p')) (admit c publication p)
    ]

-- What `nextPublication` takes of a device's queue.
unfoldable pub next_of :
    Text → Publisher → List Publication → DeviceQueue → Option Publication × Publisher
next_of device p [] q = (none, p)
next_of device p (x ∷ xs) q = (
  some x,
  record p {
    device_queues = set_queue device (some (record q { pending = xs })) p.device_queues;
    queued_publications = p.queued_publications - 1;
  },
)

unfoldable pub next_in : Text → Publisher → Option DeviceQueue → Option Publication × Publisher
next_in device p none = (none, p)
next_in device p (some q) = next_of device p q.pending q

unfoldable pub next_publication : Text → Publisher → Option Publication × Publisher
next_publication device p = next_in device p (p.device_queues device)

abbrev pub nothing_pending : List Publication → Bool
nothing_pending [] = true
nothing_pending (x ∷ xs) = false

unfoldable pub release : Publication → Publisher → DeviceQueue → Publisher
release publication p q = record p {
  device_queues =
      set_queue publication.device_id
        (if nothing_pending q.pending
          then none
          else some (record q {
            outstanding_count = q.outstanding_count - 1;
            outstanding_bytes = q.outstanding_bytes - length publication.payload;
          }))
        p.device_queues;
  queue_bytes = p.queue_bytes - length publication.payload;
}

unfoldable pub complete_in :
    JudgeSourceConfig → Publication → Publisher → Option DeviceQueue → Option Publisher
complete_in c publication p none =
    some (record p { queue_bytes = p.queue_bytes - length publication.payload })
complete_in c publication p (some q) =
    if nothing_pending q.pending
    then some (release publication p q)
    else send_ready c.queue_size publication.device_id (release publication p q)

-- The state after the lock is released; a device with nothing pending is forgotten.
unfoldable pub complete_publication : JudgeSourceConfig → Publication → Publisher → Option Publisher
complete_publication c publication p =
    complete_in c publication p (p.device_queues publication.device_id)
