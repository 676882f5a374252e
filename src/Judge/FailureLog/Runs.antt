-- ===== src/Judge/FailureLog/Runs.antt =====
-- Histories of the failure log: any sequence of recorded failures, confirmed operations and flushes.
use multiple_protocol_contro.Common.{==_iff, ==_refl, Bool-cases, List, [], ap, arith, false}
use multiple_protocol_contro.Common.{get_or, if◌then◌else◌, inl, inr, map, refl, suc, sym, true}
use multiple_protocol_contro.Common.{ℕ, ◌*◌, ◌++◌, ◌+◌, ◌==◌, ◌∙◌, ◌∷◌, ◌≡◌}
use multiple_protocol_contro.Judge.FailureLog.{FailureLog, Reason, Summary, all_reasons}
use multiple_protocol_contro.Judge.FailureLog.{confirm_success, flush_at, flush_entry, index_of}
use multiple_protocol_contro.Judge.FailureLog.{queue_full, record_failure, record_reason, success}
use multiple_protocol_contro.Judge.FailureLog.{summaries_of, unknown_reason, update}
use multiple_protocol_contro.Judge.FailureLog.Invariant.{flush_entry_conserves, reported_failures}
use mathlib.Core.Path.{subst}

pub data Call : Type 0 where
  failed : Reason → Call
  succeeded : List Reason → Call
  flushed : ℕ → Call

unfoldable pub step : Call → FailureLog → FailureLog × List (Reason × Summary)
step (failed r) log = (record_reason r log, [])
step (succeeded rs) log = (success rs log, [])
step (flushed now) log = flush_at now log

-- The final log, and all that was written.
unfoldable pub run : List Call → FailureLog → FailureLog × List (Reason × Summary)
run [] log = (log, [])
run (c ∷ cs) log =
    let (log1, out1) = step c log in let (log2, out2) = run cs log1 in (log2, out1 ++ out2)

-- The failures of one reason: those written, and those recorded in a history.
abbrev pub failures_of : Reason → List (Reason × Summary) → ℕ
failures_of r [] = 0
failures_of r ((r', s) ∷ out) =
    if index_of r == index_of r' then s.failures + failures_of r out else failures_of r out

abbrev pub times_failed : Reason → List Call → ℕ
times_failed r [] = 0
times_failed r (failed r' ∷ cs) =
    if index_of r' == index_of r then suc (times_failed r cs) else times_failed r cs
times_failed r (succeeded rs ∷ cs) = times_failed r cs
times_failed r (flushed now ∷ cs) = times_failed r cs

failures_of-append :
    (r : Reason) (xs ys : List (Reason × Summary))
    → failures_of r (xs ++ ys) ≡ failures_of r xs + failures_of r ys
failures_of-append r [] ys = omega arith
failures_of-append r ((r', s) ∷ xs) ys = ground (arith, failures_of-append r xs ys)

failures_of_self :
    (r : Reason) (ss : List Summary) → failures_of r (map (λ s. (r, s)) ss) ≡ reported_failures ss
failures_of_self r [] = refl
failures_of_self r (s ∷ ss) = ground (arith, failures_of_self r ss)

failures_of-other :
    (r r' : Reason) (ss : List Summary)
    → (index_of r == index_of r') ≡ false
    → failures_of r (map (λ s. (r', s)) ss) ≡ 0
failures_of-other r r' [] h = refl
failures_of-other r r' (s ∷ ss) h = rw h (failures_of-other r r' ss h)

-- How often a reason stands in a list.
abbrev occurs : Reason → List Reason → ℕ
occurs r [] = 0
occurs r (r' ∷ rs) = if index_of r == index_of r' then suc (occurs r rs) else occurs r rs

reason_at : (r : Reason) → get_or all_reasons (index_of r) unknown_reason ≡ r
reason_at queue_full = refl
reason_at _ = refl

index_of-injective : (r r' : Reason) → (index_of r == index_of r') ≡ true → r ≡ r'
index_of-injective r r' h =
    sym (reason_at r)
    ∙ ap (λ n. get_or all_reasons n unknown_reason) ((==_iff (index_of r) (index_of r')).0 h)
    ∙ reason_at r'

failures_of-summaries :
    (now : ℕ) (r : Reason) (rs : List Reason) (log : FailureLog)
    → failures_of r (summaries_of now rs log)
      ≡ occurs r rs * reported_failures (flush_entry now (log r)).1
unfolding summaries_of
failures_of-summaries now r [] log = omega arith
failures_of-summaries now r (r' ∷ rs) log = elim (Bool-cases (index_of r == index_of r')) [
  | inl e ↦
      let same : r ≡ r' = index_of-injective r r' e in
      let ss : List Summary = (flush_entry now (log r')).1 in
      let here : failures_of r (map (λ s. (r', s)) ss) ≡ reported_failures ss =
        subst (λ k. failures_of k (map (λ s. (r', s)) ss) ≡ reported_failures ss) (sym same)
          (failures_of_self r' ss) in
      let there : reported_failures (flush_entry now (log r)).1 ≡ reported_failures ss =
        ap (λ k. reported_failures (flush_entry now (log k)).1) same in
      rw (failures_of-append r (map (λ s. (r', s)) ss) (summaries_of now rs log), here, e)
        (omega (arith, failures_of-summaries now r rs log, there))
  | inr e ↦
      rw
        (
          failures_of-append r (map (λ s. (r', s)) (flush_entry now (log r')).1)
              (summaries_of now rs log),
          failures_of-other r r' (flush_entry now (log r')).1 e,
          e,
        )
        (omega (arith, failures_of-summaries now r rs log))
]

once : (r : Reason) → occurs r all_reasons ≡ 1
once queue_full = refl
once _ = refl

same_index : (r : Reason) → (index_of r == index_of r) ≡ true
same_index r = ==_refl (index_of r)

confirm_success-count :
    (log : FailureLog) (r r' : Reason) → (update log r' confirm_success r).count ≡ (log r).count
unfolding confirm_success
confirm_success-count log r r' = ground arith

success-count :
    (r : Reason) (rs : List Reason) (log : FailureLog) → (success rs log r).count ≡ (log r).count
unfolding success
success-count r [] log = refl
success-count r (r' ∷ rs) log =
    success-count r rs (update log r' confirm_success) ∙ confirm_success-count log r r'

record_reason-count :
    (r r' : Reason) (log : FailureLog)
    → (record_reason r' log r).count ≡ (log r).count + times_failed r (failed r' ∷ [])
unfolding record_reason record_failure
record_reason-count r r' log = ground arith

flush_at-count :
    (r : Reason) (now : ℕ) (log : FailureLog)
    → failures_of r (flush_at now log).1 + ((flush_at now log).0 r).count ≡ (log r).count
unfolding flush_at
flush_at-count r now log =
    rw (failures_of-summaries now r all_reasons log, once r)
      (omega (arith, flush_entry_conserves now (log r)))

-- Of one call: what a reason has pending after it, and what the call writes of it, is what was pending
-- and the failure that the call records.
step_conserves :
    (r : Reason) (c : Call) (log : FailureLog)
    → failures_of r (step c log).1 + ((step c log).0 r).count
      ≡ (log r).count + times_failed r (c ∷ [])
unfolding step
step_conserves r (failed r') log = omega (arith, record_reason-count r r' log)
step_conserves r (succeeded rs) log = omega (arith, success-count r rs log)
step_conserves r (flushed now) log = omega (arith, flush_at-count r now log)

times_failed-cons :
    (r : Reason) (c : Call) (cs : List Call)
    → times_failed r (c ∷ cs) ≡ times_failed r (c ∷ []) + times_failed r cs
times_failed-cons r (failed r') cs = ground arith
times_failed-cons r (succeeded rs) cs = omega arith
times_failed-cons r (flushed now) cs = omega arith

-- In every history of recorded failures, confirmed operations and flushes, in any order, no failure is
-- lost and none is written twice: for each reason, the failures that the written summaries count and
-- those still pending at the end are the ones that were pending at the start and those recorded since.
pub run_conserves :
    (r : Reason) (cs : List Call) (log : FailureLog)
    → failures_of r (run cs log).1 + ((run cs log).0 r).count ≡ (log r).count + times_failed r cs
unfolding run
run_conserves r [] log = omega arith
run_conserves r (c ∷ cs) log = rw (failures_of-append r (step c log).1 (run cs (step c log).0).1) (
    omega
      (arith, step_conserves r c log, run_conserves r cs (step c log).0, times_failed-cons r c cs))
