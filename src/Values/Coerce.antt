-- ===== src/Values/Coerce.antt =====
-- The Coerce functions of pkg/utils/utils.go, over the dynamic values of the parent.
pub mod Exact
use multiple_protocol_contro.Common.{Bool, Text, [], codes, contains_any, false, if◌then◌else◌}
use multiple_protocol_contro.Common.{ltb, none, not, some, switch, to_lower, trim_space, true, ℕ}
use multiple_protocol_contro.Common.{◌&&◌, ◌==◌, ◌^◌, ◌||◌, ◌∷◌}
use multiple_protocol_contro.Common.Int.{fits_signed, neg_part, negsuc, of_word, pos, pos_part, ℤ}
use multiple_protocol_contro.Values.{Floats, IntKind, Result, ValueOf, bad_bool, bad_number, bool}
use multiple_protocol_contro.Values.{err, float32, float64, int, int64, integer, negative}
use multiple_protocol_contro.Values.{not_finite, not_integer, number, of_option, ok, out_of_range}
use multiple_protocol_contro.Values.{require, text, uint, uint64, unsupported_type, ◌>>=◌, ◌>>◌}
use multiple_protocol_contro.Values.Decimal.{parse_int, parse_uint}

-- `int64(v)` of a value of the given integer type, with the check that only `uint64` has.
int64_of_integer : IntKind → ℤ → Result ℤ
int64_of_integer uint n = ok (of_word (2 ^ 63) (pos_part n))
int64_of_integer uint64 n = if ltb (pos_part n) (2 ^ 63) then ok n else err out_of_range
int64_of_integer _ n = ok n

-- The signed types refuse a negative value.
uint64_of_integer : IntKind → ℤ → Result ℕ
uint64_of_integer _ (pos n) = ok n
uint64_of_integer _ (negsuc n) = err negative

-- The exact version checks `uint` as well.
exact_int64_of_integer : IntKind → ℤ → Result ℤ
exact_int64_of_integer uint n = if ltb (pos_part n) (2 ^ 63) then ok n else err out_of_range
exact_int64_of_integer uint64 n = if ltb (pos_part n) (2 ^ 63) then ok n else err out_of_range
exact_int64_of_integer _ n = ok n

bool_of_integer : IntKind → ℤ → Result Bool
bool_of_integer int n = ok (not (pos_part n == 0 && neg_part n == 0))
bool_of_integer int64 n = ok (not (pos_part n == 0 && neg_part n == 0))
bool_of_integer uint64 n = ok (not (pos_part n == 0 && neg_part n == 0))
bool_of_integer _ n = err unsupported_type

-- The two `case` lists of the strings.
bool_of_text : Text → Result Bool
bool_of_text =
    switch
      ((codes "1", ok true)
        ∷ (codes "true", ok true)
        ∷ (codes "t", ok true)
        ∷ (codes "yes", ok true)
        ∷ (codes "y", ok true)
        ∷ (codes "0", ok false)
        ∷ (codes "false", ok false)
        ∷ (codes "f", ok false)
        ∷ (codes "no", ok false)
        ∷ (codes "n", ok false)
        ∷ [])
      (err bad_bool)

exact_int64_from_text : Text → Result ℤ
exact_int64_from_text s =
    if contains_any s (codes ".eE")
    then err not_integer
    else of_option (parse_int (trim_space s)) not_integer

unfoldable pub exact_uint64_from_text : Text → Result ℕ
exact_uint64_from_text s =
    if contains_any s (codes ".eE")
    then err not_integer
    else of_option (parse_uint (trim_space s)) not_integer

module _ (fl : Floats) where
  open fl use {F32, F64, widen, narrow, of_int, to_int64, to_uint64, is_zero, is_below_zero}
  open fl use {is_nan, is_inf, is_integral, beyond_exact, parse}

  unfoldable pub coerce_bool : ValueOf fl → Result Bool
  unfolding bool_of_integer bool_of_text
  coerce_bool (bool b) = ok b
  coerce_bool (integer k n) = bool_of_integer k n
  coerce_bool (float64 f) = ok (not (is_zero f))
  coerce_bool (number s) = do f ← of_option (parse s) bad_number; ok (not (is_zero f))
  coerce_bool (text s) = bool_of_text (trim_space (to_lower s))
  coerce_bool _ = err unsupported_type

  unfoldable pub coerce_int64 : ValueOf fl → Result ℤ
  unfolding int64_of_integer
  coerce_int64 (integer k n) = int64_of_integer k n
  coerce_int64 (float32 f) = ok (to_int64 (widen f))
  coerce_int64 (float64 f) = ok (to_int64 f)
  coerce_int64 (number s) = do f ← of_option (parse s) bad_number; ok (to_int64 f)
  coerce_int64 (text s) =
      if contains_any s (codes ".")
      then (of_option (parse s) bad_number >>= λ f. ok (to_int64 f))
      else of_option (parse_int s) bad_number
  coerce_int64 _ = err unsupported_type

  unfoldable pub coerce_int32 : ValueOf fl → Result ℤ
  unfolding coerce_int64
  coerce_int32 v = do n ← coerce_int64 v; require (fits_signed (2 ^ 31) n) out_of_range; ok n

  -- `uint64(f)` behind the test `f < 0`.
  uint64_of_float : F64 → Result ℕ
  uint64_of_float f = if is_below_zero f then err negative else ok (to_uint64 f)

  unfoldable pub coerce_uint64 : ValueOf fl → Result ℕ
  unfolding uint64_of_integer uint64_of_float
  coerce_uint64 (integer k n) = uint64_of_integer k n
  coerce_uint64 (float32 f) = uint64_of_float (widen f)
  coerce_uint64 (float64 f) = uint64_of_float f
  coerce_uint64 (number s) = do f ← of_option (parse s) bad_number; uint64_of_float f
  coerce_uint64 (text s) =
      if contains_any s (codes ".")
      then (of_option (parse s) bad_number >>= uint64_of_float)
      else of_option (parse_uint s) bad_number
  coerce_uint64 _ = err unsupported_type

  unfoldable pub coerce_float64 : ValueOf fl → Result F64
  coerce_float64 (integer k n) = ok (of_int n)
  coerce_float64 (float32 f) = ok (widen f)
  coerce_float64 (float64 f) = ok f
  coerce_float64 (number s) = of_option (parse s) bad_number
  coerce_float64 (text s) = of_option (parse s) bad_number
  coerce_float64 _ = err unsupported_type

  unfoldable pub coerce_float32 : ValueOf fl → Result F32
  unfolding coerce_float64
  coerce_float32 v = do f ← coerce_float64 v; ok (narrow f)

  unfoldable pub exact_int64_from_float : F64 → Result ℤ
  exact_int64_from_float f =
      if is_nan f || is_inf f
      then err not_finite
      else if not (is_integral f)
      then err not_integer
      else if beyond_exact f
      then err out_of_range
      else ok (to_int64 f)

  unfoldable pub exact_uint64_from_float : F64 → Result ℕ
  exact_uint64_from_float f =
      if is_nan f || is_inf f
      then err not_finite
      else if is_below_zero f
      then err negative
      else if not (is_integral f)
      then err not_integer
      else if beyond_exact f
      then err out_of_range
      else ok (to_uint64 f)

  unfoldable pub coerce_exact_int64 : ValueOf fl → Result ℤ
  unfolding exact_int64_of_integer exact_int64_from_float exact_int64_from_text
  coerce_exact_int64 (integer k n) = exact_int64_of_integer k n
  coerce_exact_int64 (float32 f) = exact_int64_from_float (widen f)
  coerce_exact_int64 (float64 f) = exact_int64_from_float f
  coerce_exact_int64 (number s) = exact_int64_from_text s
  coerce_exact_int64 (text s) = exact_int64_from_text s
  coerce_exact_int64 _ = err unsupported_type

  unfoldable pub coerce_exact_uint64 : ValueOf fl → Result ℕ
  unfolding uint64_of_integer exact_uint64_from_float exact_uint64_from_text
  coerce_exact_uint64 (integer k n) = uint64_of_integer k n
  coerce_exact_uint64 (float32 f) = exact_uint64_from_float (widen f)
  coerce_exact_uint64 (float64 f) = exact_uint64_from_float f
  coerce_exact_uint64 (number s) = exact_uint64_from_text s
  coerce_exact_uint64 (text s) = exact_uint64_from_text s
  coerce_exact_uint64 _ = err unsupported_type

  -- A json.Number that parses becomes a float64.
  unfoldable pub legacy_json_number_value : ValueOf fl → ValueOf fl
  legacy_json_number_value (number s) = elim (parse s) [ none ↦ number s | some f ↦ float64 f ]
  legacy_json_number_value v = v
