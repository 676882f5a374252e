-- ===== src/Control/Readback/Ends.antt =====
-- When the verification ends, and what its outcome means.
use multiple_protocol_contro.Common.{Bool, Bool-cases, arith, false, inl, inr, refl, some, suc}
use multiple_protocol_contro.Common.{true, zero, ℕ, ◌+◌, ◌<◌, ◌≡◌, ◌≤◌, ◌⊎◌}
use multiple_protocol_contro.Control.Readback.{CommandStatus, Readbacks, matches, status_failed}
use multiple_protocol_contro.Control.Readback.{status_unverified, status_verified}
use multiple_protocol_contro.Control.Readback.{verify_control_readback, verify_from}
use native.Mathlib.Decide.{ℕ_discrete}

module _ {V : Type 0} (equal : V → Bool) (rb : Readbacks V) where
  -- No end at the i-th read-back: it does not match, and the context is not done after it.
  abbrev pub GoesOnAt : ℕ → Type 0
  GoesOnAt i =
      (matches equal (rb.readback i) ≡ false)
      × (rb.done_after i ≡ false)
      × (rb.done_waiting i ≡ false)

  abbrev pub OutcomeAt : ℕ → CommandStatus → Type 0
  OutcomeAt i status_verified = matches equal (rb.readback i) ≡ true
  OutcomeAt i status_unverified = ⊥
  OutcomeAt i status_failed =
      (matches equal (rb.readback i) ≡ false)
      × ((rb.done_after i ≡ true) ⊎ (rb.done_waiting i ≡ true))

  pub record EndsBy (first last : ℕ) (result : ℕ × CommandStatus) : Type 0 where
    pub at_least : first ≤ result.0
    pub at_most : result.0 ≤ last
    pub went_on : (i : ℕ) → first ≤ i → i < result.0 → GoesOnAt i
    pub outcome : OutcomeAt result.0 result.1

  ends_here :
      (i last : ℕ) (status : CommandStatus)
      → i ≤ last
      → OutcomeAt i status
      → EndsBy i last (i, status)
  ends_here i last status h o = record {
    at_least = omega arith;
    at_most = h;
    went_on = λ j low high. absurd (omega arith);
    outcome = o;
  }

  ends_later :
      (i last : ℕ) (result : ℕ × CommandStatus)
      → GoesOnAt i
      → EndsBy (suc i) last result
      → EndsBy i last result
  ends_later i last result on e = record {
    at_least = omega (arith, e.at_least);
    at_most = e.at_most;
    went_on = λ j low high. elim (ℕ_discrete j i) [
      | yes same ↦ rw same on
      | no other_one ↦ e.went_on j (omega arith) high
    ];
    outcome = e.outcome;
  }

  before_last :
      (i last : ℕ) → i ≤ last → rb.done_after last ≡ true → rb.done_after i ≡ false → i < last
  before_last i last l d open_still = elim (ℕ_discrete i last) [
    | yes same ↦ absurd (cc (rw same at open_still))
    | no other_one ↦ omega arith
  ]

  verify_from-EndsBy :
      (fuel i last : ℕ)
      → last + 1 ≡ i + fuel
      → i ≤ last
      → rb.done_after last ≡ true
      → (result : ℕ × CommandStatus) × (verify_from equal rb fuel i ≡ some result)
        × EndsBy i last result
  unfolding verify_from
  verify_from-EndsBy zero i last h l d = absurd (omega arith)
  verify_from-EndsBy (suc fuel) i last h l d = elim (Bool-cases (matches equal (rb.readback i))) [
    | inl good ↦
        ((i, status_verified), rw good refl, ends_here i last status_verified (omega arith) good)
    | inr bad ↦ elim (Bool-cases (rb.done_after i)) [
      | inl over ↦ (
        (i, status_failed),
        rw (bad, over) refl,
        ends_here i last status_failed (omega arith) (bad, inl over),
      )
      | inr open_still ↦ elim (Bool-cases (rb.done_waiting i)) [
        | inl over ↦ (
          (i, status_failed),
          rw (bad, open_still, over) refl,
          ends_here i last status_failed (omega arith) (bad, inr over),
        )
        | inr waited ↦
            let before : i < last = before_last i last l d open_still in
            let (result, e, ends) =
              verify_from-EndsBy fuel (suc i) last (omega arith) (omega arith) d in
            (
              result,
              rw (bad, open_still, waited) e,
              ends_later i last result (bad, open_still, waited) ends,
            )
      ]
    ]
  ]

  -- Where the context is done after some read-back, the verification ends with that one at the latest.
  -- It reports a verified value exactly for a read-back that equals the target, and a failure exactly for
  -- one that does not, with the context done after it; at each read-back before it went on.
  pub verify_control_readback-EndsBy :
      (last : ℕ)
      → rb.done_after last ≡ true
      → (result : ℕ × CommandStatus) × (verify_control_readback equal rb (suc last) ≡ some result)
        × EndsBy 0 last result
  unfolding verify_control_readback
  verify_control_readback-EndsBy last d =
      verify_from-EndsBy (suc last) 0 last (omega arith) (omega arith) d
