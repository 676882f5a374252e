-- ===== src/Modbus/Crc/Detect.antt =====
-- The CRC accepts what the encoder writes, and rejects a frame with one corrupted byte.
use multiple_protocol_contro.Common.{==_iff, All, All-append, Bool, Bool-cases, List, [], ap}
use multiple_protocol_contro.Common.{arith, bit_xor, false, get_or, if◌then◌else◌, inl, inr}
use multiple_protocol_contro.Common.{length, length-append, ltb, refl, suc, sym, take-append}
use multiple_protocol_contro.Common.{true, zero, ℕ, ◌%◌, ◌*◌, ◌++◌, ◌+◌, ◌-◌, ◌/◌, ◌<◌, ◌==◌, ◌^◌}
use multiple_protocol_contro.Common.{◌∙◌, ◌∷◌, ◌≡◌, ◌≢◌}
use multiple_protocol_contro.Common.Bits.{bit_xor-injective_left, bit_xor-injective_right}
use multiple_protocol_contro.Common.Bits.{bit_xor-lt, fields_bit_or}
use multiple_protocol_contro.Modbus.Crc.{IsByte, append_crc, compute_crc, crc_bit, crc_bits}
use multiple_protocol_contro.Modbus.Crc.{crc_bytes, verify_crc}

-- A test of each number from 0 up to a limit, by evaluation.
passes_up_to : (ℕ → Bool) → ℕ → Bool
passes_up_to test zero = true
passes_up_to test (suc limit) = if test limit then passes_up_to test limit else false

passed_at :
    (test : ℕ → Bool) (limit i : ℕ) → i < limit → passes_up_to test limit ≡ true → test i ≡ true
unfolding passes_up_to
passed_at test (suc limit) i small passed = ground (arith, passed_at test limit i)
passed_at test zero i small passed = absurd (omega arith)

-- The round that undoes `crc_bit`: the polynomial's top bit tells which branch was taken.
undo_bit : ℕ → ℕ
undo_bit y = if ltb y 0x8000 then y * 2 else bit_xor y 0xA001 * 2 + 1

undo_table : passes_up_to (λ x. undo_bit (crc_bit x) == x) 65536 ≡ true
unfolding passes_up_to undo_bit crc_bit
undo_table = refl

crc_bit-undo : (x : ℕ) → x < 65536 → undo_bit (crc_bit x) ≡ x
crc_bit-undo x h = (==_iff _ x).0 (passed_at _ 65536 x h undo_table)

crc_bit-lt : (x : ℕ) → x < 2 ^ 16 → crc_bit x < 2 ^ 16
unfolding crc_bit
crc_bit-lt x h = ground (arith, bit_xor-lt 16 (x / 2) 0xA001)

crc_bit-injective : (x y : ℕ) → x < 65536 → y < 65536 → crc_bit x ≡ crc_bit y → x ≡ y
crc_bit-injective x y p q e = sym (crc_bit-undo x p) ∙ ap undo_bit e ∙ crc_bit-undo y q

crc_bits-lt : (n x : ℕ) → x < 2 ^ 16 → crc_bits n x < 2 ^ 16
unfolding crc_bits
crc_bits-lt zero x h = h
crc_bits-lt (suc n) x h = crc_bits-lt n (crc_bit x) (crc_bit-lt x h)

crc_bits-injective : (n x y : ℕ) → x < 65536 → y < 65536 → crc_bits n x ≡ crc_bits n y → x ≡ y
unfolding crc_bits
crc_bits-injective zero x y p q e = e
crc_bits-injective (suc n) x y p q e =
    crc_bit-injective x y p q
      (crc_bits-injective n (crc_bit x) (crc_bit y) (crc_bit-lt x p) (crc_bit-lt y q) e)

-- One byte taken in.
step-lt : (crc b : ℕ) → crc < 2 ^ 16 → b < 256 → crc_bits 8 (bit_xor crc b) < 2 ^ 16
step-lt crc b p q = crc_bits-lt 8 (bit_xor crc b) (bit_xor-lt 16 crc b p (omega arith))

crc_bytes-lt : (bs : List ℕ) (crc : ℕ) → All IsByte bs → crc < 2 ^ 16 → crc_bytes crc bs < 2 ^ 16
unfolding crc_bytes
crc_bytes-lt [] crc h p = p
crc_bytes-lt (b ∷ bs) crc (hb, hbs) p = crc_bytes-lt bs _ hbs (step-lt crc b p hb)

pub compute_crc-lt : (bs : List ℕ) → All IsByte bs → compute_crc bs < 2 ^ 16
unfolding compute_crc
compute_crc-lt bs h = unfold compute_crc in crc_bytes-lt bs 0xFFFF h (omega arith)

-- Different states stay different over the same bytes.
crc_bytes-injective :
    (bs : List ℕ) (x y : ℕ)
    → All IsByte bs
    → x < 2 ^ 16
    → y < 2 ^ 16
    → crc_bytes x bs ≡ crc_bytes y bs
    → x ≡ y
unfolding crc_bytes
crc_bytes-injective [] x y h p q e = e
crc_bytes-injective (b ∷ bs) x y (hb, hbs) p q e = bit_xor-injective_left 16 b x y p q (
    crc_bits-injective 8 (bit_xor x b) (bit_xor y b) (bit_xor-lt 16 x b p (omega arith))
      (bit_xor-lt 16 y b q (omega arith))
      (crc_bytes-injective bs _ _ hbs (step-lt x b p hb) (step-lt y b q hb) e))

crc_bytes-changed :
    (xs ys : List ℕ) (a b crc : ℕ)
    → All IsByte xs
    → All IsByte ys
    → a < 256
    → b < 256
    → crc < 2 ^ 16
    → crc_bytes crc (xs ++ (a ∷ ys)) ≡ crc_bytes crc (xs ++ (b ∷ ys))
    → a ≡ b
unfolding crc_bytes
crc_bytes-changed [] ys a b crc hx hy ha hb p e = bit_xor-injective_right 8 crc a b ha hb (
    crc_bits-injective 8 (bit_xor crc a) (bit_xor crc b) (bit_xor-lt 16 crc a p (omega arith))
      (bit_xor-lt 16 crc b p (omega arith))
      (crc_bytes-injective ys _ _ hy (step-lt crc a p ha) (step-lt crc b p hb) e))
crc_bytes-changed (x ∷ xs) ys a b crc (hx, hxs) hy ha hb p e =
    crc_bytes-changed xs ys a b _ hxs hy ha hb (step-lt crc x p hx) e

compute_crc-changed :
    (xs ys : List ℕ) (a b : ℕ)
    → All IsByte xs
    → All IsByte ys
    → a < 256
    → b < 256
    → compute_crc (xs ++ (a ∷ ys)) ≡ compute_crc (xs ++ (b ∷ ys))
    → a ≡ b
compute_crc-changed xs ys a b hx hy ha hb e =
    crc_bytes-changed xs ys a b 0xFFFF hx hy ha hb (omega arith) (unfold compute_crc in e)

get_or-append : (bs : List ℕ) (x : ℕ) (ys : List ℕ) → get_or (bs ++ (x ∷ ys)) (length bs) 0 ≡ x
get_or-append [] x ys = refl
get_or-append (b ∷ bs) x ys = get_or-append bs x ys

get_or-append_next :
    (bs : List ℕ) (x y : ℕ) (ys : List ℕ) → get_or (bs ++ (x ∷ y ∷ ys)) (suc (length bs)) 0 ≡ y
get_or-append_next [] x y ys = refl
get_or-append_next (b ∷ bs) x y ys = get_or-append_next bs x y ys

-- What the check compares, at a frame whose last two bytes are `lo` and `hi`.
verify_crc-append :
    (bs : List ℕ) (lo hi : ℕ)
    → lo < 256
    → hi < 256
    → verify_crc (bs ++ (lo ∷ hi ∷ [])) ≡ (compute_crc bs == hi * 256 + lo)
unfolding verify_crc
verify_crc-append bs lo hi p q =
    let n = length bs in
    let e : length (bs ++ (lo ∷ hi ∷ [])) ≡ suc (suc n) =
      omega (arith, length-append bs (lo ∷ hi ∷ [])) in
    let e2 : suc (suc n) - 2 ≡ n = omega arith in
    let e1 : suc (suc n) - 1 ≡ suc n = omega arith in
    let small : ltb (suc (suc n)) 2 ≡ false = ground arith in
    let wide : hi * 2 ^ 8 % 2 ^ 16 ≡ hi * 2 ^ 8 = omega arith in
    rw (
      e,
      small,
      e2,
      e1,
      get_or-append bs lo (hi ∷ []),
      get_or-append_next bs lo hi [],
      take-append bs (lo ∷ hi ∷ []),
      wide,
      fields_bit_or 8 hi lo p,
    )

-- Every frame that the encoder completes passes the collector's check.
pub verify_crc-append_crc :
    (frame : List ℕ) → All IsByte frame → verify_crc (append_crc frame) ≡ true
unfolding append_crc
verify_crc-append_crc frame h =
    let c = compute_crc frame in
    verify_crc-append frame (c % 256) (c / 2 ^ 8 % 256) (omega arith) (omega arith)
    ∙ (==_iff _ _).1 (omega (arith, compute_crc-lt frame h))

-- A completed frame in which one byte before the CRC has been replaced by another fails the check.
pub verify_crc_corrupted :
    (xs ys : List ℕ) (a b : ℕ)
    → All IsByte xs
    → All IsByte ys
    → a < 256
    → b < 256
    → a ≢ b
    → let c = compute_crc (xs ++ (a ∷ ys)) in
      verify_crc ((xs ++ (b ∷ ys)) ++ (c % 256 ∷ c / 2 ^ 8 % 256 ∷ [])) ≡ false
verify_crc_corrupted xs ys a b hx hy ha hb ne =
    let c = compute_crc (xs ++ (a ∷ ys)) in
    let c' = compute_crc (xs ++ (b ∷ ys)) in
    verify_crc-append (xs ++ (b ∷ ys)) (c % 256) (c / 2 ^ 8 % 256) (omega arith) (omega arith)
    ∙ elim (Bool-cases (c' == c / 2 ^ 8 % 256 * 256 + c % 256)) [
      | inl same ↦ absurd (
          ne (
            compute_crc-changed xs ys a b hx hy ha hb (
              omega (
                arith,
                compute_crc-lt (xs ++ (a ∷ ys)) (All-append IsByte xs (a ∷ ys) hx (ha, hy)),
                (==_iff _ _).0 same,
              ))))
      | inr differs ↦ differs
    ]
