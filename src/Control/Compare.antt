-- ===== src/Control/Compare.antt =====
-- When a value that was read back counts as the one written: internal/control/verification.go.
pub mod Exact
use multiple_protocol_contro.Common.{Bool, Option, Text, [], codes, contains_any, false}
use multiple_protocol_contro.Common.{if◌then◌else◌, ltb, none, not, some, switch, text_eq}
use multiple_protocol_contro.Common.{to_lower, trim_space, true, ℕ, ◌&&◌, ◌+◌, ◌^◌, ◌||◌, ◌∷◌}
use multiple_protocol_contro.Common.{◌≡◌, ◌≤◌}
use multiple_protocol_contro.Common.Int.{neg_part, pos_part, ℤ}
use multiple_protocol_contro.Values.{Floats, IntKind, Value, ValueOf, integer, number, text}

-- What the comparison uses of math/big, fmt, strconv, reflect and float64 arithmetic. `rational_of_text`
-- is Rat.SetString, `within_tolerance x y` the test of controlNumbersWithinTolerance on floats.
pub record Comparisons (fl : Floats) : Type 1 where
  pub Rational : Type 0
  pub rational_of_int : ℤ → Rational
  pub rational_of_float : fl.F64 → Rational
  pub rational_of_text : Text → Option Rational
  pub same_rational : Rational → Rational → Bool
  pub exceeds : Rational → ℕ → Bool
  pub sprint : ValueOf fl → Text
  pub deep_equal : ValueOf fl → ValueOf fl → Bool
  pub within_tolerance : fl.F64 → fl.F64 → Bool

-- Rationals of integers are equal as the integers are, and their absolute values compare.
pub record ComparisonLaws (fl : Floats) (cs : Comparisons fl) : Type 0 where
  pub same_int :
      (m n : ℤ) → cs.same_rational (cs.rational_of_int m) (cs.rational_of_int n) ≡ true → m ≡ n
  pub same_refl : (n : ℤ) → cs.same_rational (cs.rational_of_int n) (cs.rational_of_int n) ≡ true
  pub exceeds_int :
      (n : ℤ) (limit : ℕ)
      → cs.exceeds (cs.rational_of_int n) limit ≡ false
      → pos_part n + neg_part n ≤ limit

-- The classes of data type names that the comparison tells apart; `legacy` names are numeric too.
pub data TypeClass : Type 0 where
  bool_class string_class integer_class float_class legacy_class unknown_class : TypeClass

unfoldable pub type_class : Text → TypeClass
type_class data_type =
    switch
      ((codes "bool", bool_class)
        ∷ (codes "boolean", bool_class)
        ∷ (codes "string", string_class)
        ∷ (codes "int8", integer_class)
        ∷ (codes "uint8", integer_class)
        ∷ (codes "int16", integer_class)
        ∷ (codes "uint16", integer_class)
        ∷ (codes "int32", integer_class)
        ∷ (codes "uint32", integer_class)
        ∷ (codes "int64", integer_class)
        ∷ (codes "uint64", integer_class)
        ∷ (codes "float32", float_class)
        ∷ (codes "float64", float_class)
        ∷ (codes "byte", legacy_class)
        ∷ (codes "short", legacy_class)
        ∷ (codes "ushort", legacy_class)
        ∷ (codes "int", legacy_class)
        ∷ (codes "uint", legacy_class)
        ∷ (codes "long", legacy_class)
        ∷ (codes "ulong", legacy_class)
        ∷ (codes "enum", legacy_class)
        ∷ (codes "float", legacy_class)
        ∷ (codes "double", legacy_class)
        ∷ (codes "number", legacy_class)
        ∷ [])
      unknown_class (to_lower (trim_space data_type))

-- strconv.ParseBool
unfoldable pub parse_bool : Text → Option Bool
parse_bool s =
    switch
      ((codes "1", some true)
        ∷ (codes "t", some true)
        ∷ (codes "T", some true)
        ∷ (codes "TRUE", some true)
        ∷ (codes "true", some true)
        ∷ (codes "True", some true)
        ∷ (codes "0", some false)
        ∷ (codes "f", some false)
        ∷ (codes "F", some false)
        ∷ (codes "FALSE", some false)
        ∷ (codes "false", some false)
        ∷ (codes "False", some false)
        ∷ [])
      none s

abbrev pub same_bool : Bool → Bool → Bool
same_bool true b = b
same_bool false b = not b

-- Two results that are both there, and pass a test.
abbrev pub both {ℓ} : {A : Type ℓ} → (A → A → Bool) → Option A → Option A → Bool
both test none b = false
both test (some a) none = false
both test (some a) (some b) = test a b

module _ (fl : Floats) (cs : Comparisons fl) where
  open cs use {Rational}

  unfoldable pub control_bool : ValueOf fl → Option Bool
  control_bool (Value.bool b) = some b
  control_bool v = parse_bool (trim_space (cs.sprint v))

  unfoldable pub control_number : ValueOf fl → Option fl.F64
  control_number v = fl.parse (trim_space (cs.sprint v))

  unfoldable pub control_numbers_within_tolerance : ValueOf fl → ValueOf fl → Bool
  control_numbers_within_tolerance target actual =
      both cs.within_tolerance (control_number target) (control_number actual)

  unfoldable pub control_rational_from_float : fl.F64 → Option Rational
  control_rational_from_float f =
      if fl.is_nan f || fl.is_inf f then none else some (cs.rational_of_float f)

  abbrev pub rational_of_parsed : Option fl.F64 → Option Rational
  rational_of_parsed none = none
  rational_of_parsed (some f) = control_rational_from_float f

  unfoldable pub control_rational_from_text : Text → Option Rational
  control_rational_from_text s =
      let trimmed = trim_space s in
      if text_eq trimmed []
      then none
      else if contains_any trimmed (codes "eE")
      then rational_of_parsed (fl.parse trimmed)
      else cs.rational_of_text trimmed

  unfoldable pub control_exact_rational : ValueOf fl → Option Rational
  control_exact_rational (integer k n) = some (cs.rational_of_int n)
  control_exact_rational (Value.float32 f) = control_rational_from_float (fl.widen f)
  control_exact_rational (Value.float64 f) = control_rational_from_float f
  control_exact_rational (number s) = control_rational_from_text s
  control_exact_rational (text s) = control_rational_from_text s
  control_exact_rational v = control_rational_from_text (cs.sprint v)

  abbrev pub beyond_limit : Option Rational → Bool
  beyond_limit none = true
  beyond_limit (some r) = cs.exceeds r (2 ^ 53)

  unfoldable pub control_magnitude_beyond_float_precision : ValueOf fl → Bool
  control_magnitude_beyond_float_precision (integer IntKind.uint64 n) = ltb (2 ^ 53) (pos_part n)
  control_magnitude_beyond_float_precision (Value.float64 f) = fl.beyond_exact f
  control_magnitude_beyond_float_precision (Value.float32 f) = fl.beyond_exact (fl.widen f)
  control_magnitude_beyond_float_precision v = beyond_limit (control_exact_rational v)

  unfoldable pub legacy_control_values_equal : TypeClass → ValueOf fl → ValueOf fl → Bool
  legacy_control_values_equal bool_class target actual =
      both same_bool (control_bool target) (control_bool actual)
  legacy_control_values_equal legacy_class target actual =
      control_numbers_within_tolerance target actual
  legacy_control_values_equal string_class target actual =
      text_eq (cs.sprint target) (cs.sprint actual)
  legacy_control_values_equal c target actual = cs.deep_equal target actual

  abbrev pub is_bool_class : TypeClass → Bool
  is_bool_class bool_class = true
  is_bool_class c = false

  abbrev pub is_string_class : TypeClass → Bool
  is_string_class string_class = true
  is_string_class c = false

  abbrev pub is_integer_class : TypeClass → Bool
  is_integer_class integer_class = true
  is_integer_class c = false

  abbrev pub is_legacy_class : TypeClass → Bool
  is_legacy_class legacy_class = true
  is_legacy_class c = false

  abbrev pub is_unknown_class : TypeClass → Bool
  is_unknown_class unknown_class = true
  is_unknown_class c = false

  -- The tests of controlValuesEqualWithExplicit in their order, on the classes of the two type names.
  unfoldable pub class_values_equal : TypeClass → TypeClass → ValueOf fl → ValueOf fl → Bool
  class_values_equal t a target actual =
      if is_bool_class t || is_bool_class a
      then both same_bool (control_bool target) (control_bool actual)
      else if is_string_class t || is_string_class a
      then text_eq (cs.sprint target) (cs.sprint actual)
      else if is_unknown_class t || is_unknown_class a
      then cs.deep_equal target actual
      else if is_legacy_class t && is_legacy_class a
      then control_numbers_within_tolerance target actual
      else if is_integer_class t && is_integer_class a
      then both cs.same_rational (control_exact_rational target) (control_exact_rational actual)
      else if (is_integer_class t && control_magnitude_beyond_float_precision target)
          || (is_integer_class a && control_magnitude_beyond_float_precision actual)
      then false
      else control_numbers_within_tolerance target actual

  unfoldable pub control_values_equal_with_explicit :
      ValueOf fl → ValueOf fl → Text → Bool → Text → Bool → Bool
  control_values_equal_with_explicit target actual target_type target_explicit actual_type
        actual_explicit =
      if not target_explicit && not actual_explicit
      then legacy_control_values_equal (type_class target_type) target actual
      else class_values_equal (type_class target_type) (type_class actual_type) target actual

  unfoldable pub is_canonical_data_type_name : Text → Bool
  is_canonical_data_type_name data_type =
      is_integer_class (type_class data_type) || is_float_class (type_class data_type)
    where
      is_float_class : TypeClass → Bool
      is_float_class float_class = true
      is_float_class c = false
