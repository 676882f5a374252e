-- ===== src/Judge/FailureLog/Invariant.antt =====
-- What holds of an entry between two calls, and that no failure is lost or counted twice.
use multiple_protocol_contro.Common.{List, [], arith, false, ℕ, ◌+◌, ◌∷◌, ◌≡◌, ◌≤◌}
use multiple_protocol_contro.Judge.FailureLog.{Entry, Summary, confirm_success, flush_entry}
use multiple_protocol_contro.Judge.FailureLog.{new_entry, record_failure, report_change}
use multiple_protocol_contro.Judge.FailureLog.{report_first}

pub record Inv (e : Entry) : Type 0 where
  pub pending : e.count ≤ e.total
  pub recovered_past : e.recovered_total ≤ e.total
  -- Failures that are not pending have been reported.
  pub unreported : e.reported ≡ false → e.count ≡ 0 → e.recovered_total ≡ e.total

pub new-Inv : Inv new_entry
new-Inv = ground arith

pub record_failure-Inv : (e : Entry) → Inv e → Inv (record_failure e)
unfolding record_failure
record_failure-Inv e v = ground arith

pub confirm_success-Inv : (e : Entry) → Inv e → Inv (confirm_success e)
unfolding confirm_success
confirm_success-Inv e v = ground arith

pub flush_entry-Inv : (now : ℕ) (e : Entry) → Inv e → Inv (flush_entry now e).0
unfolding flush_entry report_first report_change
flush_entry-Inv now e v = ground arith

-- The failures that a list of summaries speaks of.
abbrev pub reported_failures : List Summary → ℕ
reported_failures [] = 0
reported_failures (s ∷ ss) = s.failures + reported_failures ss

-- A flush moves the pending failures of a reason, all or none, into its summaries.
pub flush_entry_conserves :
    (now : ℕ) (e : Entry)
    → reported_failures (flush_entry now e).1 + (flush_entry now e).0.count ≡ e.count
unfolding flush_entry report_first report_change
flush_entry_conserves now e = ground arith
