-- ===== src/Values/Samples.antt =====
-- A world of two floating-point numbers, 0 and 1, that meets the laws: for tests.
use multiple_protocol_contro.Common.{Bool, Option, Text, arith, codes, false, if◌then◌else◌, none}
use multiple_protocol_contro.Common.{not, refl, some, text_eq, true, ℕ, ◌&&◌, ◌+◌, ◌<◌, ◌==◌, ◌^◌}
use multiple_protocol_contro.Common.{◌≡◌, ◌≤◌}
use multiple_protocol_contro.Common.Int.{neg_part, pos, pos_part}
use multiple_protocol_contro.Values.{FloatLaws, Floats}

abbrev one32 : ℕ
one32 = 0x3F800000

abbrev one64 : ℕ
one64 = 0x3FF0000000000000

abbrev int_of : Bool → ℕ
int_of true = 1
int_of false = 0

abbrev parse_bit : Text → Option Bool
parse_bit s =
    if text_eq s (codes "1") then some true else if text_eq s (codes "0") then some false else none

abbrev pub two_floats : Floats
two_floats = record {
  F32 = Bool;
  F64 = Bool;
  widen = λ x. x;
  narrow = λ x. x;
  of_int = λ n. not (pos_part n == 0 && neg_part n == 0);
  to_int64 = λ x. pos (int_of x);
  to_uint64 = int_of;
  is_zero = not;
  is_below_zero = λ x. false;
  is_nan = λ x. false;
  is_inf = λ x. false;
  is_integral = λ x. true;
  beyond_exact = λ x. false;
  parse = parse_bit;
  bits32 = λ x. if x then one32 else 0;
  of_bits32 = λ w. w == one32;
  bits64 = λ x. if x then one64 else 0;
  of_bits64 = λ w. w == one64;
}

bits32-lt : (x : Bool) → (if x then one32 else 0) < 2 ^ 32
bits32-lt true = omega arith
bits32-lt false = omega arith

bits64-lt : (x : Bool) → (if x then one64 else 0) < 2 ^ 64
bits64-lt true = omega arith
bits64-lt false = omega arith

back32 : (x : Bool) → ((if x then one32 else 0) == one32) ≡ x
back32 true = refl
back32 false = refl

back64 : (x : Bool) → ((if x then one64 else 0) == one64) ≡ x
back64 true = refl
back64 false = refl

small : (x : Bool) → int_of x < 2 ^ 53 + 1
small true = omega arith
small false = omega arith

small_too : (x : Bool) → int_of x ≤ 2 ^ 53
small_too true = omega arith
small_too false = omega arith

pub two_floats_laws : FloatLaws two_floats
two_floats_laws = record {
  bits32_range = bits32-lt;
  bits64_range = bits64-lt;
  of_bits32-bits32 = back32;
  of_bits64-bits64 = back64;
  to_int64_exact = λ x a b. small x;
  to_uint64_exact = λ x a b c. small_too x;
}
