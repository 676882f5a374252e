-- ===== src/Judge/FailureLog/Consistent.antt =====
-- The invariant of the entries along histories of the failure log.
use multiple_protocol_contro.Common.{Bool-cases, List, [], inl, inr, ◌==◌, ◌∷◌}
use multiple_protocol_contro.Judge.FailureLog.{Entry, FailureLog, Reason, confirm_success}
use multiple_protocol_contro.Judge.FailureLog.{flush_at, index_of, record_failure, record_reason}
use multiple_protocol_contro.Judge.FailureLog.{success, update}
use multiple_protocol_contro.Judge.FailureLog.Invariant.{Inv, confirm_success-Inv}
use multiple_protocol_contro.Judge.FailureLog.Invariant.{flush_entry-Inv, record_failure-Inv}
use multiple_protocol_contro.Judge.FailureLog.Runs.{Call, failed, flushed, run, step, succeeded}

-- Every entry meets the invariant.
abbrev pub LogInv : FailureLog → Type 0
LogInv log = (r : Reason) → Inv (log r)

update-LogInv :
    (f : Entry → Entry) (r : Reason) (log : FailureLog)
    → ((e : Entry) → Inv e → Inv (f e))
    → LogInv log
    → LogInv (update log r f)
update-LogInv f r log h v r' = elim (Bool-cases (index_of r == index_of r')) [
  | inl e ↦ rw e (h (log r') (v r'))
  | inr e ↦ rw e (v r')
]

success-LogInv : (rs : List Reason) (log : FailureLog) → LogInv log → LogInv (success rs log)
unfolding success
success-LogInv [] log v = v
success-LogInv (r ∷ rs) log v =
    success-LogInv rs (update log r confirm_success)
      (update-LogInv confirm_success r log confirm_success-Inv v)

step-LogInv : (c : Call) (log : FailureLog) → LogInv log → LogInv (step c log).0
unfolding step record_reason flush_at
step-LogInv (failed r) log v = update-LogInv record_failure r log record_failure-Inv v
step-LogInv (succeeded rs) log v = success-LogInv rs log v
step-LogInv (flushed now) log v = λ r. flush_entry-Inv now (log r) (v r)

-- After every history, if it held before: no reason has more failures pending, or more confirmed as
-- recovered, than were recorded, and a reason that is not reported and has nothing pending has all its
-- failures confirmed as recovered.
pub run-LogInv : (cs : List Call) (log : FailureLog) → LogInv log → LogInv (run cs log).0
unfolding run
run-LogInv [] log v = v
run-LogInv (c ∷ cs) log v = run-LogInv cs (step c log).0 (step-LogInv c log v)
