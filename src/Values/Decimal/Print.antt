-- ===== src/Values/Decimal/Print.antt =====
-- strconv.Itoa, FormatInt and FormatUint in base 10, and their round trips with the parsers.
use multiple_protocol_contro.Common.{Bool-cases, Text, [], ap, arith, false, if◌then◌else◌, inl}
use multiple_protocol_contro.Common.{inr, leb, ltb, lt→ltb, refl, some, suc, sym, true, zero, ℕ}
use multiple_protocol_contro.Common.{◌%◌, ◌*◌, ◌+◌, ◌-◌, ◌/◌, ◌<◌, ◌==◌, ◌^◌, ◌∙◌, ◌∷◌, ◌≡◌}
use multiple_protocol_contro.Common.Int.{FitsSigned, negsuc, pos, ℤ}
use multiple_protocol_contro.Values.Decimal.{digits_from, negate_ℕ, parse_int, parse_uint}
use multiple_protocol_contro.Values.Decimal.{unsigned_digits}

-- The digits of a number before a text; the fuel is more than the number.
print_upto : ℕ → ℕ → Text → Text
print_upto zero n rest = rest
print_upto (suc fuel) n rest =
    let more = print_upto fuel (n / 10) ((b'0' + n % 10) ∷ rest) in
    if ltb n 10 then (b'0' + n) ∷ rest else more

unfoldable pub print_ℕ : ℕ → Text
unfolding print_upto
print_ℕ n = print_upto (suc n) n []

unfoldable pub print_ℤ : ℤ → Text
print_ℤ (pos n) = print_ℕ n
print_ℤ (negsuc n) = b'-' ∷ print_ℕ (suc n)

digit_read :
    (acc d : ℕ) (s : Text)
    → d < 10
    → digits_from acc ((b'0' + d) ∷ s) ≡ digits_from (acc * 10 + d) s
unfolding digits_from
digit_read acc d s h =
    let least : leb b'0' (b'0' + d) ≡ true = ground arith in
    let most : leb (b'0' + d) b'9' ≡ true = ground arith in
    let value : acc * 10 + (b'0' + d - b'0') ≡ acc * 10 + d = omega arith in
    rw (least, most, value) refl

digits_from-print_upto :
    (fuel n : ℕ) (rest : Text)
    → n < fuel
    → digits_from 0 (print_upto fuel n rest) ≡ digits_from n rest
unfolding print_upto
digits_from-print_upto zero n rest h = absurd (omega arith)
digits_from-print_upto (suc fuel) n rest h = elim (Bool-cases (ltb n 10)) [
  | inl e ↦ rw e (digit_read 0 n rest (ground arith) ∙ ap (λ m. digits_from m rest) (omega arith))
  | inr e ↦ rw e (
      digits_from-print_upto fuel (n / 10) ((b'0' + n % 10) ∷ rest) (ground arith)
      ∙ digit_read (n / 10) (n % 10) rest (omega arith)
      ∙ ap (λ m. digits_from m rest) (omega arith))
]

-- The text starts with a digit.
first_digit :
    (fuel n : ℕ) (rest : Text)
    → n < fuel
    → (d : ℕ) × (s : Text) × (d < 10) × (print_upto fuel n rest ≡ (b'0' + d) ∷ s)
unfolding print_upto
first_digit zero n rest h = absurd (omega arith)
first_digit (suc fuel) n rest h =
    let ih = first_digit fuel (n / 10) ((b'0' + n % 10) ∷ rest) in
    elim (Bool-cases (ltb n 10)) [
      | inl e ↦ (n, rest, ground arith, rw e refl)
      | inr e ↦ let (d, s, small, printed) = ih (ground arith) in (d, s, small, rw e printed)
    ]

print_ℕ_starts : (n : ℕ) → (d : ℕ) × (s : Text) × (d < 10) × (print_ℕ n ≡ (b'0' + d) ∷ s)
unfolding print_ℕ
print_ℕ_starts n = first_digit (suc n) n [] (omega arith)

unsigned_digits-print_ℕ : (n : ℕ) → unsigned_digits (print_ℕ n) ≡ some n
unfolding print_ℕ unsigned_digits digits_from
unsigned_digits-print_ℕ n =
    let (d, s, small, printed) = first_digit (suc n) n [] (omega arith) in
    let whole = digits_from-print_upto (suc n) n [] (omega arith) in
    rw printed (ap (digits_from 0) (sym printed) ∙ whole)

pub parse_uint-print_ℕ : (n : ℕ) → n < 2 ^ 64 → parse_uint (print_ℕ n) ≡ some n
unfolding parse_uint
parse_uint-print_ℕ n h =
    let small = lt→ltb n (2 ^ 64) h in rw (unsigned_digits-print_ℕ n, small) refl

-- What FormatInt prints, ParseInt reads.
pub parse_int-print_ℤ : (n : ℤ) → FitsSigned (2 ^ 63) n → parse_int (print_ℤ n) ≡ some n
unfolding print_ℤ parse_int negate_ℕ
parse_int-print_ℤ (pos n) h =
    let (d, s, small, printed) = print_ℕ_starts n in
    let minus : (b'0' + d == b'-') ≡ false = ground arith in
    let plus : (b'0' + d == b'+') ≡ false = ground arith in
    let whole : unsigned_digits ((b'0' + d) ∷ s) ≡ some n =
      ap unsigned_digits (sym printed) ∙ unsigned_digits-print_ℕ n in
    rw (printed, minus, plus, whole, lt→ltb n (2 ^ 63) h) refl
parse_int-print_ℤ (negsuc n) h =
    let small : ltb (suc n) (2 ^ 63 + 1) ≡ true = lt→ltb (suc n) (2 ^ 63 + 1) (omega arith) in
    rw (unsigned_digits-print_ℕ (suc n), small) refl
