-- ===== src/Judge/FailureLog.antt =====
-- internal/collector/judge_source_failure_log.go: counters of failures by reason, and what of them is
-- written to the log. Each method holds the mutex, so that a run is a sequence of calls; the wake-up
-- channel only says when to flush and is left out. Counters are uint64 and taken not to wrap.
pub mod Invariant
pub mod Runs
pub mod Consistent
use multiple_protocol_contro.Common.{Bool, List, [], false, if◌then◌else◌, leb, ltb, map, not}
use multiple_protocol_contro.Common.{true, ℕ, ◌&&◌, ◌++◌, ◌+◌, ◌-◌, ◌==◌, ◌∷◌}

-- judgeSourceFailureReasons, in its order.
pub data Reason : Type 0 where
  queue_full queue_bytes_full device_queue_full device_queue_bytes_full event_invalid : Reason
  publisher_unavailable no_subscribers redis_timeout memory_exhausted redis_readonly : Reason
  persistence_error pool_exhausted auth_failed key_type_invalid redis_unavailable : Reason
  write_failed unknown_reason : Reason

abbrev pub all_reasons : List Reason
all_reasons =
    queue_full ∷ queue_bytes_full ∷ device_queue_full ∷ device_queue_bytes_full ∷ event_invalid
    ∷ publisher_unavailable ∷ no_subscribers ∷ redis_timeout ∷ memory_exhausted ∷ redis_readonly
    ∷ persistence_error ∷ pool_exhausted ∷ auth_failed ∷ key_type_invalid ∷ redis_unavailable
    ∷ write_failed ∷ unknown_reason ∷ []

-- The position of a reason in the arrays.
abbrev pub index_of : Reason → ℕ
index_of queue_full = 0
index_of queue_bytes_full = 1
index_of device_queue_full = 2
index_of device_queue_bytes_full = 3
index_of event_invalid = 4
index_of publisher_unavailable = 5
index_of no_subscribers = 6
index_of redis_timeout = 7
index_of memory_exhausted = 8
index_of redis_readonly = 9
index_of persistence_error = 10
index_of pool_exhausted = 11
index_of auth_failed = 12
index_of key_type_invalid = 13
index_of redis_unavailable = 14
index_of write_failed = 15
index_of unknown_reason = 16

-- The entry of `counts` and `states` for one reason.
pub record Entry : Type 0 where
  pub count : ℕ
  pub total : ℕ
  pub recovered_total : ℕ
  pub reported : Bool
  pub last_report : ℕ

pub data Event : Type 0 where
  first_failure failure_summary recovered : Event

pub record Summary : Type 0 where
  pub event : Event
  pub failures : ℕ
  pub total : ℕ

-- `now.Sub(state.lastReport) >= 30 s`, in nanoseconds.
abbrev pub summary_interval : ℕ
summary_interval = 30000000000

abbrev pub new_entry : Entry
new_entry = record { count = 0; total = 0; recovered_total = 0; reported = false; last_report = 0 }

-- `record` of the reason.
unfoldable pub record_failure : Entry → Entry
record_failure e = record e { count = e.count + 1; total = e.total + 1 }

-- `success` for the reason.
unfoldable pub confirm_success : Entry → Entry
confirm_success e =
    if ltb e.recovered_total e.total then record e { recovered_total = e.total } else e

-- The first `if` of the loop of `flushAt`.
unfoldable pub report_first : ℕ → Entry → Entry × List Summary
report_first now e =
    if not e.reported && ltb 0 e.count
    then (
      record e { count = 0; reported = true; last_report = now },
      record { event = first_failure; failures = e.count; total = e.total } ∷ [],
    )
    else (e, [])

-- The rest of the loop's body, for an entry that has been reported.
unfoldable pub report_change : ℕ → Entry → Entry × List Summary
report_change now e =
    if not e.reported
    then (e, [])
    else if e.recovered_total == e.total
    then (
      record e { count = 0; reported = false },
      record { event = recovered; failures = e.count; total = e.total } ∷ [],
    )
    else if leb summary_interval (now - e.last_report) && ltb 0 e.count
    then (
      record e { count = 0; last_report = now },
      record { event = failure_summary; failures = e.count; total = e.total } ∷ [],
    )
    else (e, [])

unfoldable pub flush_entry : ℕ → Entry → Entry × List Summary
flush_entry now e =
    let (e1, s1) = report_first now e in let (e2, s2) = report_change now e1 in (e2, s1 ++ s2)

-- The whole log: an entry for each reason.
abbrev pub FailureLog : Type 0
FailureLog = Reason → Entry

abbrev pub new_log : FailureLog
new_log r = new_entry

abbrev pub update : FailureLog → Reason → (Entry → Entry) → FailureLog
update log r f r' = if index_of r == index_of r' then f (log r') else log r'

unfoldable pub record_reason : Reason → FailureLog → FailureLog
record_reason r log = update log r record_failure

-- The nested loops of `success`: each code has one index.
unfoldable pub success : List Reason → FailureLog → FailureLog
success [] log = log
success (r ∷ rs) log = success rs (update log r confirm_success)

unfoldable pub summaries_of : ℕ → List Reason → FailureLog → List (Reason × Summary)
summaries_of now [] log = []
summaries_of now (r ∷ rs) log =
    map (λ s. (r, s)) (flush_entry now (log r)).1 ++ summaries_of now rs log

-- `flushAt`: the new log and the summaries, in the order of the reasons.
unfoldable pub flush_at : ℕ → FailureLog → FailureLog × List (Reason × Summary)
flush_at now log = (λ r. (flush_entry now (log r)).0, summaries_of now all_reasons log)
