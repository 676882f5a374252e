-- ===== src/Values/Decimal.antt =====
-- strconv.ParseUint and strconv.ParseInt in base 10 with 64 bits, on byte lists.
pub mod Print
use multiple_protocol_contro.Common.{Option, Text, [], arith, if◌then◌else◌, leb, ltb, none, some}
use multiple_protocol_contro.Common.{suc, zero, ℕ, ◌&&◌, ◌*◌, ◌+◌, ◌-◌, ◌<◌, ◌==◌, ◌^◌, ◌∷◌, ◌≡◌}
use multiple_protocol_contro.Common.Int.{FitsSigned, negsuc, pos, ℤ}
use mathlib.Core.Option

-- All bytes are digits; the value so far is `acc`.
digits_from : ℕ → Text → Option ℕ
digits_from acc [] = some acc
digits_from acc (c ∷ s) =
    if leb b'0' c && leb c b'9' then digits_from (acc * 10 + (c - b'0')) s else none

unsigned_digits : Text → Option ℕ
unsigned_digits [] = none
unsigned_digits (c ∷ s) = digits_from 0 (c ∷ s)

below : ℕ → Option ℕ → Option ℕ
below m none = none
below m (some n) = if ltb n m then some n else none

-- A sign is not accepted, and a value of 2^64 or more is a range error.
unfoldable pub parse_uint : Text → Option ℕ
unfolding digits_from unsigned_digits below
parse_uint s = below (2 ^ 64) (unsigned_digits s)

negate_ℕ : ℕ → ℤ
negate_ℕ zero = pos 0
negate_ℕ (suc n) = negsuc n

-- A `-` or `+` may stand in front; the value lies between -2^63 and 2^63 - 1.
unfoldable pub parse_int : Text → Option ℤ
unfolding digits_from unsigned_digits below negate_ℕ
parse_int [] = none
parse_int (c ∷ s) =
    if c == b'-'
    then Option.map negate_ℕ (below (2 ^ 63 + 1) (unsigned_digits s))
    else if c == b'+'
    then Option.map pos (below (2 ^ 63) (unsigned_digits s))
    else Option.map pos (below (2 ^ 63) (unsigned_digits (c ∷ s)))

pub parse_uint_range : (s : Text) (n : ℕ) → parse_uint s ≡ some n → n < 2 ^ 64
unfolding parse_uint
parse_uint_range s n h = ground arith

pub parse_int_range : (s : Text) (n : ℤ) → parse_int s ≡ some n → FitsSigned (2 ^ 63) n
unfolding parse_int
parse_int_range [] n h = cc
parse_int_range (c ∷ s) (pos n) h = ground arith
parse_int_range (c ∷ s) (negsuc n) h = ground arith
