-- ===== src/Bacnet/Value/Words.antt =====
-- The numbers that lists of bytes stand for, read as the parser of application values reads them.
use multiple_protocol_contro.Common.{All, List, [], arith, bit_or, if◌then◌else◌, length, ltb}
use multiple_protocol_contro.Common.{suc, zero, ℕ, ◌%◌, ◌*◌, ◌+◌, ◌-◌, ◌<◌, ◌^◌, ◌∙◌, ◌∷◌, ◌≡◌}
use multiple_protocol_contro.Common.{◌≤◌}
use multiple_protocol_contro.Common.Bits.{bit_or_fields}
use multiple_protocol_contro.Common.Int.{negsuc, of_word, pos, ℤ}
use multiple_protocol_contro.Bacnet.Value.{shift_in, sign_extend}
use native.Mathlib.Nat.{add-mul, pow-le-pow_right, pow-suc, mul-le-mul_right, mul-le-mul_left}

-- The number that bytes stand for, in big-endian order.
abbrev pub number_of : List ℕ → ℕ
number_of [] = 0
number_of (b ∷ bs) = b * 256 ^ length bs + number_of bs

abbrev pub Bytes : List ℕ → Type 0
Bytes bs = All (λ b. b < 256) bs

step_byte : (v b : ℕ) → v < 2 ^ 56 → b < 256 → bit_or (v * 2 ^ 8 % 2 ^ 64) b ≡ v * 256 + b
step_byte v b small byte =
    let fits : v * 2 ^ 8 % 2 ^ 64 ≡ v * 2 ^ 8 = omega arith in rw fits (bit_or_fields 8 v b byte)

positive : (n : ℕ) → 1 ≤ 256 ^ n
positive zero = omega arith
positive (suc n) = omega (arith, pow-suc 256 n, positive n)

pub number_of-lt : (bs : List ℕ) → Bytes bs → number_of bs < 256 ^ length bs
number_of-lt [] h = omega arith
number_of-lt (b ∷ bs) (hb, h) =
    let P = 256 ^ length bs in
    let le : b ≤ 255 = omega arith in
    omega (arith, number_of-lt bs h, pow-suc 256 (length bs), mul-le-mul_right P le)

room_of : (v p q : ℕ) → q ≡ p * 256 → (v + 1) * q ≤ 2 ^ 64 → (v + 1) * 256 * p ≤ 2 ^ 64
room_of v p q e h = let h' : (v + 1) * (p * 256) ≤ 2 ^ 64 = rw e at h in omega arith

regroup : (v b p q n : ℕ) → q ≡ p * 256 → (v * 256 + b) * p + n ≡ v * q + (b * p + n)
regroup v b p q n e = rw e (omega (arith, add-mul (v * 256) b p))

pub shift_in-number_of :
    (v : ℕ) (bs : List ℕ)
    → Bytes bs
    → (v + 1) * 256 ^ length bs ≤ 2 ^ 64
    → shift_in v bs ≡ v * 256 ^ length bs + number_of bs
unfolding shift_in
shift_in-number_of v [] h fits = omega arith
shift_in-number_of v (b ∷ bs) (hb, h) fits =
    let P = 256 ^ length bs in
    let power : 256 ^ length (b ∷ bs) ≡ P * 256 = pow-suc 256 (length bs) in
    let room : (v + 1) * 256 * P ≤ 2 ^ 64 = room_of v P (256 ^ length (b ∷ bs)) power fits in
    let small : v < 2 ^ 56 =
      omega (arith, mul-le-mul_left ((v + 1) * 256) (positive (length bs))) in
    let within : v * 256 + b + 1 ≤ (v + 1) * 256 = omega arith in
    let fits' : (v * 256 + b + 1) * P ≤ 2 ^ 64 = omega (arith, mul-le-mul_right P within) in
    rw (step_byte v b small hb) (
      shift_in-number_of (v * 256 + b) bs h fits'
      ∙ regroup v b P (256 ^ length (b ∷ bs)) (number_of bs) power)

-- The reading of a number below `m` in two's complement.
abbrev pub signed_of : ℕ → ℕ → ℤ
signed_of m w = if ltb (w + w) m then pos w else negsuc (m - 1 - w)

pub sign_extend_word :
    (k : ℕ) (w : ℕ) → 1 ≤ k → k ≤ 8 → w < 256 ^ k → sign_extend w k ≡ signed_of (256 ^ k) w
unfolding sign_extend of_word
sign_extend_word zero w p q h = absurd (omega arith)
sign_extend_word (suc zero) w p q h = ground arith
sign_extend_word (suc (suc zero)) w p q h = ground arith
sign_extend_word (suc (suc (suc zero))) w p q h = ground arith
sign_extend_word (suc (suc (suc (suc zero)))) w p q h = ground arith
sign_extend_word (suc (suc (suc (suc (suc zero))))) w p q h = ground arith
sign_extend_word (suc (suc (suc (suc (suc (suc zero)))))) w p q h = ground arith
sign_extend_word (suc (suc (suc (suc (suc (suc (suc zero))))))) w p q h = ground arith
sign_extend_word (suc (suc (suc (suc (suc (suc (suc (suc zero)))))))) w p q h = ground arith
sign_extend_word (suc (suc (suc (suc (suc (suc (suc (suc (suc k))))))))) w p q h =
    absurd (omega arith)

pub at_most_power : (k : ℕ) → k ≤ 8 → (0 + 1) * 256 ^ k ≤ 2 ^ 64
at_most_power k h = let base : 0 < 256 = omega arith in omega (arith, pow-le-pow_right base h)
