-- ===== src/Values/Coerce/Exact.antt =====
-- The ranges of the coercions, and what the exact ones refuse.
use multiple_protocol_contro.Common.{Text, arith, ℕ, ◌+◌, ◌<◌, ◌^◌, ◌≡◌}
use multiple_protocol_contro.Common.Int.{FitsSigned, negsuc, pos, ℤ}
use multiple_protocol_contro.Values.{FloatLaws, Floats, InRange, IntKind, Value, ValueOf, float32}
use multiple_protocol_contro.Values.{float64, integer, number, ok, text, uint}
use multiple_protocol_contro.Values.Coerce.{coerce_exact_int64, coerce_exact_uint64}
use multiple_protocol_contro.Values.Coerce.{exact_int64_from_float, exact_int64_from_text}
use multiple_protocol_contro.Values.Coerce.{exact_int64_of_integer, exact_uint64_from_float}
use multiple_protocol_contro.Values.Coerce.{exact_uint64_from_text, uint64_of_integer}
use multiple_protocol_contro.Values.Decimal.{parse_int_range, parse_uint_range}

-- A dynamic value of an integer type lies in the range of its type.
abbrev pub IsTyped : {F32 F64 : Type 0} → Value F32 F64 → Type 0
IsTyped (integer k n) = InRange k n
IsTyped _ = Unit

widen_range : (n : ℤ) → FitsSigned (2 ^ 53 + 1) n → FitsSigned (2 ^ 63) n
widen_range (pos n) h = omega arith
widen_range (negsuc n) h = omega arith

exact_text_range : (s : Text) (n : ℤ) → exact_int64_from_text s ≡ ok n → FitsSigned (2 ^ 63) n
unfolding exact_int64_from_text
exact_text_range s n h = grind (arith, parse_int_range)

exact_integer_range :
    (k : IntKind) (m n : ℤ)
    → InRange k m
    → exact_int64_of_integer k m ≡ ok n
    → FitsSigned (2 ^ 63) n
unfolding exact_int64_of_integer
exact_integer_range uint (pos m) (pos n) h e = ground arith
exact_integer_range _ (pos m) (pos n) h e = ground arith
exact_integer_range _ (pos m) (negsuc n) h e = ground arith
exact_integer_range _ (negsuc m) (pos n) h e = ground arith
exact_integer_range _ (negsuc m) (negsuc n) h e = ground arith

exact_unsigned_text_range : (s : Text) (n : ℕ) → exact_uint64_from_text s ≡ ok n → n < 2 ^ 64
unfolding exact_uint64_from_text
exact_unsigned_text_range s n h = grind (arith, parse_uint_range)

exact_unsigned_range :
    (k : IntKind) (m : ℤ) (n : ℕ) → InRange k m → uint64_of_integer k m ≡ ok n → n < 2 ^ 64
unfolding uint64_of_integer
exact_unsigned_range uint (pos m) n h e = ground arith
exact_unsigned_range _ (pos m) n h e = ground arith
exact_unsigned_range _ (negsuc m) n h e = cc

module _ (fl : Floats) (laws : FloatLaws fl) where
  exact_float_range :
      (f : fl.F64) (n : ℤ) → exact_int64_from_float fl f ≡ ok n → FitsSigned (2 ^ 63) n
  unfolding exact_int64_from_float
  exact_float_range f n e = ground (arith, laws.to_int64_exact f, widen_range n)

  -- An exact signed coercion that succeeds gives an int64, whatever the dynamic type of the value.
  pub coerce_exact_int64_range :
      (v : ValueOf fl) (n : ℤ) → IsTyped v → coerce_exact_int64 fl v ≡ ok n → FitsSigned (2 ^ 63) n
  unfolding coerce_exact_int64
  coerce_exact_int64_range (integer k m) n h e = exact_integer_range k m n h e
  coerce_exact_int64_range (float32 f) n h e = exact_float_range (fl.widen f) n e
  coerce_exact_int64_range (float64 f) n h e = exact_float_range f n e
  coerce_exact_int64_range (number s) n h e = exact_text_range s n e
  coerce_exact_int64_range (text s) n h e = exact_text_range s n e
  coerce_exact_int64_range _ n h e = cc

  exact_unsigned_float_range :
      (f : fl.F64) (n : ℕ) → exact_uint64_from_float fl f ≡ ok n → n < 2 ^ 64
  unfolding exact_uint64_from_float
  exact_unsigned_float_range f n e = ground (arith, laws.to_uint64_exact f)

  -- An exact unsigned coercion that succeeds gives a uint64, whatever the dynamic type of the value.
  pub coerce_exact_uint64_range :
      (v : ValueOf fl) (n : ℕ) → IsTyped v → coerce_exact_uint64 fl v ≡ ok n → n < 2 ^ 64
  unfolding coerce_exact_uint64
  coerce_exact_uint64_range (integer k m) n h e = exact_unsigned_range k m n h e
  coerce_exact_uint64_range (float32 f) n h e = exact_unsigned_float_range (fl.widen f) n e
  coerce_exact_uint64_range (float64 f) n h e = exact_unsigned_float_range f n e
  coerce_exact_uint64_range (number s) n h e = exact_unsigned_text_range s n e
  coerce_exact_uint64_range (text s) n h e = exact_unsigned_text_range s n e
  coerce_exact_uint64_range _ n h e = cc
