-- ===== src/Control/Compare/Exact.antt =====
-- An integer that was written is confirmed only by itself, or by a float that can hold it.
use multiple_protocol_contro.Common.{Bool-cases, arith, false, if◌then◌else◌, inl, inr, text_eq}
use multiple_protocol_contro.Common.{true, ◌+◌, ◌^◌, ◌||◌, ◌≡◌, ◌≤◌}
use multiple_protocol_contro.Common.Int.{neg_part, negsuc, pos, pos_part, ℤ}
use multiple_protocol_contro.Control.Compare.{ComparisonLaws, Comparisons, TypeClass, bool_class}
use multiple_protocol_contro.Control.Compare.{both, class_values_equal, control_bool}
use multiple_protocol_contro.Control.Compare.{control_exact_rational}
use multiple_protocol_contro.Control.Compare.{control_magnitude_beyond_float_precision}
use multiple_protocol_contro.Control.Compare.{control_numbers_within_tolerance, float_class}
use multiple_protocol_contro.Control.Compare.{integer_class, legacy_class, same_bool}
use multiple_protocol_contro.Control.Compare.{string_class, unknown_class}
use multiple_protocol_contro.Values.{Floats, InRange, IntKind, ValueOf, integer}

module _ (fl : Floats) (cs : Comparisons fl) (laws : ComparisonLaws fl cs) where
  -- An integer of at most 53 bits, which a float64 holds exactly.
  abbrev pub FitsFloat : ℤ → Type 0
  FitsFloat n = pos_part n + neg_part n ≤ 2 ^ 53

  within_precision :
      (k : IntKind) (n : ℤ)
      → InRange k n
      → control_magnitude_beyond_float_precision fl cs (integer k n) ≡ false
      → FitsFloat n
  unfolding control_magnitude_beyond_float_precision control_exact_rational
  within_precision IntKind.uint64 (pos n) h e = ground arith
  within_precision IntKind.uint64 (negsuc n) h e = absurd h
  within_precision _ n h e = laws.exceeds_int n (2 ^ 53) e

  -- What a comparison that succeeds says of a written integer, by the class of the type that was read: for
  -- an integer type the values are the same rational, so that an integer that was read is the one written;
  -- for a float or legacy type the integer has at most 53 bits and the numbers agree within the tolerance;
  -- for other types the values agree as booleans, as texts or deeply.
  abbrev pub Confirms : TypeClass → IntKind → ℤ → ValueOf fl → Type 0
  Confirms integer_class k m actual =
      (both cs.same_rational (control_exact_rational fl cs (integer k m))
          (control_exact_rational fl cs actual)
        ≡ true)
      × ((k' : IntKind) (n : ℤ) → actual ≡ integer k' n → m ≡ n)
  Confirms float_class k m actual =
      FitsFloat m × (control_numbers_within_tolerance fl cs (integer k m) actual ≡ true)
  Confirms legacy_class k m actual =
      FitsFloat m × (control_numbers_within_tolerance fl cs (integer k m) actual ≡ true)
  Confirms bool_class k m actual =
      both same_bool (control_bool fl cs (integer k m)) (control_bool fl cs actual) ≡ true
  Confirms string_class k m actual = text_eq (cs.sprint (integer k m)) (cs.sprint actual) ≡ true
  Confirms unknown_class k m actual = cs.deep_equal (integer k m) actual ≡ true

  as_float :
      (k : IntKind) (m : ℤ) (actual : ValueOf fl)
      → InRange k m
      → (if control_magnitude_beyond_float_precision fl cs (integer k m) || false
          then false
          else control_numbers_within_tolerance fl cs (integer k m) actual)
        ≡ true
      → FitsFloat m × (control_numbers_within_tolerance fl cs (integer k m) actual ≡ true)
  as_float k m actual h e =
      elim (Bool-cases (control_magnitude_beyond_float_precision fl cs (integer k m))) [
        | inl beyond ↦ absurd (cc (rw beyond at e))
        | inr within ↦ (within_precision k m h within, rw within at e)
      ]

  pub class_values_equal-Confirms :
      (a : TypeClass) (k : IntKind) (m : ℤ) (actual : ValueOf fl)
      → InRange k m
      → class_values_equal fl cs integer_class a (integer k m) actual ≡ true
      → Confirms a k m actual
  unfolding class_values_equal
  class_values_equal-Confirms integer_class k m actual h e =
      (e, λ k' n same. laws.same_int m n (unfold control_exact_rational in rw same at e))
  class_values_equal-Confirms float_class k m actual h e = as_float k m actual h e
  class_values_equal-Confirms legacy_class k m actual h e = as_float k m actual h e
  class_values_equal-Confirms bool_class k m actual h e = e
  class_values_equal-Confirms string_class k m actual h e = e
  class_values_equal-Confirms unknown_class k m actual h e = e
