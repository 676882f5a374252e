-- ===== src/Common/Bits.antt =====
-- Laws of the bitwise operations at variables, from the digit recursion that they stand for.
use Prim.Native.Nat.{ℕ, zero, suc, ◌+◌, ◌*◌, ◌/◌, ◌%◌, ◌^◌, ◌≤◌, ◌<◌, max}
use Prim.Native.Nat.{digits, bitwise, bit_or, differ, bit_xor, bit_or-bitwise, bit_xor-bitwise}
use mathlib.Core.Path.{◌≡◌, refl, ap, sym, ◌∙◌}
use native.Mathlib.Nat.{pow-suc}
use native.Mathlib.Omega.{arith}

-- The recursion of the native operations, with the rule for a first argument that is used up and the
-- rule for a pair of lowest digits.
module _ (rest : ℕ → ℕ) (join : ℕ → ℕ → ℕ) where
  used_up : (fuel y : ℕ) → digits rest join fuel 0 y ≡ rest y
  used_up zero y = refl
  used_up (suc fuel) y = refl

  any_fuel :
      (x y fuel more : ℕ)
      → x ≤ more
      → x ≤ fuel
      → digits rest join fuel x y ≡ digits rest join more x y
  any_fuel zero y fuel more _ _ = used_up fuel y ∙ sym (used_up more y)
  any_fuel (suc x) y fuel zero few _ = absurd (omega arith)
  any_fuel (suc x) y zero (suc more) _ few = absurd (omega arith)
  any_fuel (suc x) y (suc fuel) (suc more) most least =
      let halved : suc x / 2 ≤ x = omega arith in
      let tail = any_fuel (suc x / 2) (y / 2) fuel more (omega arith) (omega arith) in
      ap (λ high. high * 2 + join (suc x % 2) (y % 2)) tail

  lowest_digit :
      (x y : ℕ)
      → bitwise rest join (suc x) y
        ≡ bitwise rest join (suc x / 2) (y / 2) * 2 + join (suc x % 2) (y % 2)
  lowest_digit x y =
      let half : suc x / 2 ≤ x = omega arith in
      let same = any_fuel (suc x / 2) (y / 2) x (suc x / 2) (omega arith) half in
      ap (λ high. high * 2 + join (suc x % 2) (y % 2)) same

bit_or_step : (x y : ℕ) → bit_or x y ≡ bit_or (x / 2) (y / 2) * 2 + max (x % 2) (y % 2)
bit_or_step zero y = simp bit_or-bitwise (omega arith)
bit_or_step (suc x) y = simp bit_or-bitwise (lowest_digit (λ r. r) max x y)

-- By induction on a bound of the number.
nothing_added : (bound x : ℕ) → x ≤ bound → bit_or x 0 ≡ x
nothing_added bound zero _ = refl
nothing_added zero (suc x) within = absurd (omega arith)
nothing_added (suc bound) (suc x) within =
    let high = nothing_added bound (suc x / 2) (omega arith) in
    omega (arith, high, bit_or_step (suc x) 0)

-- One more place to the left.
one_place : (high width : ℕ) → high * 2 ^ suc width ≡ high * 2 ^ width * 2
one_place high width = rw (pow-suc 2 width) (omega (arith))

-- `(high << width) | low` is a sum when `low` fits the width.
pub bit_or_fields :
    (width high low : ℕ) → low < 2 ^ width → bit_or (high * 2 ^ width) low ≡ high * 2 ^ width + low
bit_or_fields zero high low small = ground (arith, nothing_added high high)
bit_or_fields (suc width) high low small =
    let upper = bit_or_fields width high (low / 2) (omega (arith, pow-suc 2 width)) in
    let digit = bit_or_step (high * 2 ^ suc width) low in
    ground (arith, upper, one_place high width, digit)

added_to_nothing : (y : ℕ) → bit_or 0 y ≡ y
added_to_nothing y = simp bit_or-bitwise refl

-- `low | (high << width)`.
pub fields_bit_or :
    (width high low : ℕ) → low < 2 ^ width → bit_or low (high * 2 ^ width) ≡ high * 2 ^ width + low
fields_bit_or zero high low small = ground (arith, added_to_nothing high)
fields_bit_or (suc width) high low small =
    let upper = fields_bit_or width high (low / 2) (omega (arith, pow-suc 2 width)) in
    let digit = bit_or_step low (high * 2 ^ suc width) in
    ground (arith, upper, one_place high width, digit)

-- The difference of two digits is their sum modulo two.
differ_bits : (x y : ℕ) → x < 2 → y < 2 → differ x y ≡ (x + y) % 2
differ_bits zero y p q = omega arith
differ_bits (suc zero) zero p q = refl
differ_bits (suc zero) (suc zero) p q = refl
differ_bits (suc zero) (suc (suc y)) p q = absurd (omega arith)
differ_bits (suc (suc x)) y p q = absurd (omega arith)

pub bit_xor_step : (a b : ℕ) → bit_xor a b ≡ bit_xor (a / 2) (b / 2) * 2 + (a % 2 + b % 2) % 2
bit_xor_step zero b = simp bit_xor-bitwise (omega arith)
bit_xor_step (suc a) b = simp bit_xor-bitwise (
    omega (
      arith,
      lowest_digit (λ r. r) differ a b,
      differ_bits (suc a % 2) (b % 2) (omega arith) (omega arith),
    ))

halves : (a k : ℕ) → a < 2 ^ suc k → a / 2 < 2 ^ k
halves a k h = omega (arith, pow-suc 2 k)

pub bit_xor-lt : (k a b : ℕ) → a < 2 ^ k → b < 2 ^ k → bit_xor a b < 2 ^ k
bit_xor-lt zero zero zero p q = omega arith
bit_xor-lt zero (suc a) b p q = absurd (omega arith)
bit_xor-lt zero zero (suc b) p q = absurd (omega arith)
bit_xor-lt (suc k) a b p q = omega (
  arith,
  pow-suc 2 k,
  bit_xor_step a b,
  bit_xor-lt k (a / 2) (b / 2) (halves a k p) (halves b k q),
)

-- Exclusive or is injective in each argument.
pub bit_xor-injective_right :
    (k c a b : ℕ) → a < 2 ^ k → b < 2 ^ k → bit_xor c a ≡ bit_xor c b → a ≡ b
bit_xor-injective_right zero c a b p q e = omega arith
bit_xor-injective_right (suc k) c a b p q e = omega (
  arith,
  bit_xor_step c a,
  bit_xor_step c b,
  bit_xor-injective_right k (c / 2) (a / 2) (b / 2) (halves a k p) (halves b k q)
      (omega (arith, bit_xor_step c a, bit_xor_step c b)),
)

pub bit_xor-injective_left :
    (k c a b : ℕ) → a < 2 ^ k → b < 2 ^ k → bit_xor a c ≡ bit_xor b c → a ≡ b
bit_xor-injective_left zero c a b p q e = omega arith
bit_xor-injective_left (suc k) c a b p q e = omega (
  arith,
  bit_xor_step a c,
  bit_xor_step b c,
  bit_xor-injective_left k (c / 2) (a / 2) (b / 2) (halves a k p) (halves b k q)
      (omega (arith, bit_xor_step a c, bit_xor_step b c)),
)
