-- ===== src/Common/Int.antt =====
-- Signed integers over the native numbers, and the conversions of Go's fixed-width integers.
use Prim.Native.Nat.{◌≤◌, ℕ, suc, ◌+◌, ◌-◌, ◌%◌, ◌<◌}
use mathlib.Core.Path.{◌≡◌}
use native.Mathlib.Omega.{arith}
use native.Mathlib.Nat.{mod-eq_of_lt}
use mathlib.Core.Bool.{Bool, true, false}
use multiple_protocol_contro.Common.Tests.{ltb, if◌then◌else◌}

-- `negsuc n` is -(n + 1).
pub data ℤ : Type 0 where
  pos : ℕ → ℤ
  negsuc : ℕ → ℤ

abbrev pub pos_part : ℤ → ℕ
pos_part (pos n) = n
pos_part (negsuc n) = 0

abbrev pub neg_part : ℤ → ℕ
neg_part (pos n) = 0
neg_part (negsuc n) = suc n

abbrev pub is_negative : ℤ → Bool
is_negative (pos n) = false
is_negative (negsuc n) = true

-- `-m ≤ n < m`.
abbrev pub fits_signed : ℕ → ℤ → Bool
fits_signed m (pos n) = ltb n m
fits_signed m (negsuc n) = ltb n m

abbrev pub FitsSigned : ℕ → ℤ → Type 0
FitsSigned m (pos n) = n < m
FitsSigned m (negsuc n) = n < m

abbrev pub FitsUnsigned : ℕ → ℤ → Type 0
FitsUnsigned m (pos n) = n < m
FitsUnsigned m (negsuc n) = ⊥

-- The two's complement pattern of `n` in a word of modulus `m`: `uint16(n)` with m = 2^16.
unfoldable pub to_word : ℕ → ℤ → ℕ
to_word m (pos n) = n % m
to_word m (negsuc n) = m - 1 - n % m

-- The signed reading of a word of modulus `m = h + h`: `int16(w)` with h = 2^15.
unfoldable pub of_word : ℕ → ℕ → ℤ
of_word h w = if ltb w h then pos w else negsuc (h + h - 1 - w)

pub to_word-lt : (h : ℕ) (n : ℤ) → FitsSigned h n → to_word (h + h) n < h + h
unfolding to_word
to_word-lt h (pos n) f = grind arith
to_word-lt h (negsuc n) f = grind arith

-- A word reads back as the integer that it was made of.
pub of_word-to_word : (h : ℕ) (n : ℤ) → FitsSigned h n → of_word h (to_word (h + h) n) ≡ n
unfolding of_word to_word
of_word-to_word h (pos n) f = ground (arith, mod-eq_of_lt {n = n} {m = h + h} (omega arith))
of_word-to_word h (negsuc n) f = ground (arith, mod-eq_of_lt {n = n} {m = h + h} (omega arith))

pub fits_signed→FitsSigned : (m : ℕ) (n : ℤ) → fits_signed m n ≡ true → FitsSigned m n
fits_signed→FitsSigned m (pos n) h = ground arith
fits_signed→FitsSigned m (negsuc n) h = ground arith

pub FitsSigned-wider : (m k : ℕ) (n : ℤ) → m ≤ k → FitsSigned m n → FitsSigned k n
FitsSigned-wider m k (pos n) h f = omega arith
FitsSigned-wider m k (negsuc n) h f = omega arith
