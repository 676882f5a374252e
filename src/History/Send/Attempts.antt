-- ===== src/History/Send/Attempts.antt =====
-- How often a batch is tried, and what each outcome means.
use multiple_protocol_contro.Common.{Bool, Bool-cases, arith, false, if◌then◌else◌, inl, inr}
use multiple_protocol_contro.Common.{refl, suc, true, zero, ℕ, ◌+◌, ◌-◌, ◌<◌, ◌≡◌, ◌≤◌, ◌⊎◌}
use multiple_protocol_contro.History.Send.{SendOutcome, after_attempt, attempt_from, attempts_of}
use multiple_protocol_contro.History.Send.{canceled, failed, sent, write_batch_with_retry}
use multiple_protocol_contro.Values.{Result, err, ok, panic}
use native.Mathlib.Decide.{ℕ_discrete}

abbrev pub is_ok : {A : Type 0} → Result A → Bool
is_ok (ok a) = true
is_ok (err e) = false
is_ok panic = false

-- The outcome `sent`, `failed` or `canceled` after the attempt `n` of so many.
abbrev pub EndsAs : (ℕ → Result (Unit {0})) → (ℕ → Bool) → ℕ → ℕ → SendOutcome → Type 0
EndsAs write is_canceled attempts n sent = is_ok (write n) ≡ true
EndsAs write is_canceled attempts n failed = (is_ok (write n) ≡ false) × (n ≡ attempts)
EndsAs write is_canceled attempts n canceled =
    (is_ok (write n) ≡ false) × (n < attempts) × (is_canceled n ≡ true)

abbrev GoesOn : (ℕ → Result (Unit {0})) → (ℕ → Bool) → ℕ → Type 0
GoesOn write is_canceled i = (is_ok (write i) ≡ false) × (is_canceled i ≡ false)

-- The attempts from `first` up to the last one.
pub record Tried (write : ℕ → Result (Unit {0})) (is_canceled : ℕ → Bool) (first attempts : ℕ)
    (result : ℕ × SendOutcome) : Type 0 where
  pub at_least : first ≤ result.0
  pub at_most : result.0 ≤ attempts
  pub went_on : (i : ℕ) → first ≤ i → i < result.0 → GoesOn write is_canceled i
  pub ends : EndsAs write is_canceled attempts result.0 result.1

Result-cases : (r : Result (Unit {0})) → (r ≡ ok tt) ⊎ (is_ok r ≡ false)
Result-cases (ok tt) = inl refl
Result-cases (err e) = inr refl
Result-cases panic = inr refl

after_attempt-bad :
    (attempt left : ℕ) (is_canceled : Bool) (r : Result (Unit {0})) (later : ℕ × SendOutcome)
    → is_ok r ≡ false
    → after_attempt attempt (suc left) is_canceled r later
      ≡ (if is_canceled then (attempt, canceled) else later)
unfolding after_attempt
after_attempt-bad attempt left is_canceled (ok u) later e = cc
after_attempt-bad attempt left is_canceled (err w) later e = refl
after_attempt-bad attempt left is_canceled panic later e = refl

after_attempt-last :
    (attempt : ℕ) (is_canceled : Bool) (r : Result (Unit {0})) (later : ℕ × SendOutcome)
    → is_ok r ≡ false
    → after_attempt attempt zero is_canceled r later ≡ (attempt, failed)
unfolding after_attempt
after_attempt-last attempt is_canceled (ok u) later e = cc
after_attempt-last attempt is_canceled (err w) later e = refl
after_attempt-last attempt is_canceled panic later e = refl

contradictory : {b : Bool} → b ≡ true → b ≡ false → ⊥
contradictory e f = absurd cc

module _ (write : ℕ → Result (Unit {0})) (is_canceled : ℕ → Bool) where
  stop_here :
      (attempt attempts : ℕ) (outcome : SendOutcome)
      → attempt ≤ attempts
      → EndsAs write is_canceled attempts attempt outcome
      → Tried write is_canceled attempt attempts (attempt, outcome)
  stop_here attempt attempts outcome h e = record {
    at_least = omega arith;
    at_most = h;
    went_on = λ i low high. absurd (omega arith);
    ends = e;
  }

  one_more :
      (attempt attempts : ℕ) (result : ℕ × SendOutcome)
      → GoesOn write is_canceled attempt
      → Tried write is_canceled (suc attempt) attempts result
      → Tried write is_canceled attempt attempts result
  one_more attempt attempts result bad t = record {
    at_least = omega (arith, t.at_least);
    at_most = t.at_most;
    went_on = λ i low high. elim (ℕ_discrete i attempt) [
      | yes e ↦ rw e bad
      | no ne ↦ t.went_on i (omega arith) high
    ];
    ends = t.ends;
  }

  attempt_from-Tried :
      (attempt left attempts : ℕ)
      → attempts ≡ attempt + left
      → Tried write is_canceled attempt attempts (attempt_from write is_canceled attempt left)
  unfolding attempt_from
  attempt_from-Tried attempt zero attempts h = elim (Result-cases (write attempt)) [
    | inl good ↦
        rw good
          (unfold after_attempt in stop_here attempt attempts sent (omega arith) (rw good refl))
    | inr bad ↦
        rw (after_attempt-last attempt (is_canceled attempt) (write attempt) (attempt, failed) bad)
          (stop_here attempt attempts failed (omega arith) (bad, omega arith))
  ]
  attempt_from-Tried attempt (suc left) attempts h =
      let later = attempt_from write is_canceled (suc attempt) left in
      let ih = attempt_from-Tried (suc attempt) left attempts (omega arith) in
      elim (Result-cases (write attempt)) [
        | inl good ↦
            rw good
              (unfold after_attempt in stop_here attempt attempts sent (omega arith) (rw good refl))
        | inr bad ↦
            rw (after_attempt-bad attempt left (is_canceled attempt) (write attempt) later bad)
              (elim (Bool-cases (is_canceled attempt)) [
                | inl over ↦
                    rw over
                      (stop_here attempt attempts canceled (omega arith) (bad, omega arith, over))
                | inr wait ↦ rw wait (one_more attempt attempts later (bad, wait) ih)
              ])
      ]

  pub write_batch_with_retry-Tried :
      (retry_count : ℕ)
      → Tried write is_canceled 1
          (attempts_of retry_count)
          (write_batch_with_retry retry_count write is_canceled)
  unfolding write_batch_with_retry
  write_batch_with_retry-Tried retry_count =
      attempt_from-Tried 1 (attempts_of retry_count - 1) (attempts_of retry_count)
        (unfold attempts_of in ground arith)

  all_fail :
      (attempts : ℕ) (result : ℕ × SendOutcome)
      → ((n : ℕ) → is_ok (write n) ≡ false)
      → ((n : ℕ) → is_canceled n ≡ false)
      → EndsAs write is_canceled attempts result.0 result.1
      → result ≡ (attempts, failed)
  all_fail attempts (n, sent) bad wait e = absurd (contradictory e (bad n))
  all_fail attempts (n, failed) bad wait (_, e) = rw e refl
  all_fail attempts (n, canceled) bad wait (_, _, e) = absurd (contradictory e (wait n))

  -- Without a success and without an end of the context, all attempts are used.
  pub never_sent :
      (retry_count : ℕ)
      → ((n : ℕ) → is_ok (write n) ≡ false)
      → ((n : ℕ) → is_canceled n ≡ false)
      → write_batch_with_retry retry_count write is_canceled ≡ (attempts_of retry_count, failed)
  never_sent retry_count bad wait =
      all_fail (attempts_of retry_count) (write_batch_with_retry retry_count write is_canceled) bad
        wait (write_batch_with_retry-Tried retry_count).ends
