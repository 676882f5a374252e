-- ===== src/Bacnet/Value/Trim.antt =====
-- The bytes that encodeUint and encodeInt drop do not change the number that is read.
use multiple_protocol_contro.Common.{Bool-cases, List, [], ap, arith, inl, inr, leb, length, ltb}
use multiple_protocol_contro.Common.{refl, sym, ℕ, ◌&&◌, ◌*◌, ◌+◌, ◌<◌, ◌==◌, ◌^◌, ◌∙◌, ◌∷◌, ◌≡◌}
use multiple_protocol_contro.Common.{◌≤◌}
use multiple_protocol_contro.Common.Int.{FitsSigned, negsuc, of_word, of_word-to_word, pos}
use multiple_protocol_contro.Common.Int.{to_word, to_word-lt, ℤ}
use multiple_protocol_contro.Bacnet.Value.{encode_int, encode_uint, trim_negative}
use multiple_protocol_contro.Bacnet.Value.{trim_nonnegative, trim_zeros}
use multiple_protocol_contro.Bacnet.Value.Words.{Bytes, number_of, number_of-lt, signed_of}
use multiple_protocol_contro.Modbus.Bytes.{length-put_uint64, put_uint64}
use native.Mathlib.Nat.{pow-suc, mul-le-mul_right}

-- Dropping leading bytes, of nothing but the last one, keeps the number.
number_of-trim_zeros : (bs : List ℕ) → number_of (trim_zeros bs) ≡ number_of bs
unfolding trim_zeros
number_of-trim_zeros [] = refl
number_of-trim_zeros (b ∷ []) = refl
number_of-trim_zeros (b ∷ c ∷ bs) = ground (arith, number_of-trim_zeros (c ∷ bs))

-- A list of one to eight bytes.
pub record Payload (bs : List ℕ) : Type 0 where
  pub bytes : Bytes bs
  pub some_byte : 1 ≤ length bs
  pub at_most : length bs ≤ 8

tail-Payload : (b c : ℕ) (bs : List ℕ) → Payload (b ∷ c ∷ bs) → Payload (c ∷ bs)
tail-Payload b c bs v = record {
  bytes = v.bytes.1;
  some_byte = omega arith;
  at_most = omega (arith, v.at_most);
}

trim_zeros-Payload : (bs : List ℕ) → Payload bs → Payload (trim_zeros bs)
unfolding trim_zeros
trim_zeros-Payload [] v = v
trim_zeros-Payload (b ∷ []) v = v
trim_zeros-Payload (b ∷ c ∷ bs) v = elim (Bool-cases (b == 0)) [
  | inl e ↦ rw e (trim_zeros-Payload (c ∷ bs) (tail-Payload b c bs v))
  | inr e ↦ rw e v
]

put_uint64-Payload : (w : ℕ) → Payload (put_uint64 w)
unfolding put_uint64
put_uint64-Payload w = record {
  bytes = omega arith;
  some_byte = omega arith;
  at_most = omega arith;
}

number_of-put_uint64 : (w : ℕ) → w < 2 ^ 64 → number_of (put_uint64 w) ≡ w
unfolding put_uint64
number_of-put_uint64 w h = omega arith

-- The signed number that bytes stand for.
abbrev pub signed_number : List ℕ → ℤ
signed_number bs = signed_of (256 ^ length bs) (number_of bs)

wider_nonnegative :
    (m m' w w' : ℕ) → m' ≡ m * 256 → w' ≡ w → w + w < m → signed_of m' w' ≡ signed_of m w
wider_nonnegative m m' w w' em ew h = ground arith

wider_negative :
    (m m' w w' : ℕ)
    → m' ≡ m * 256
    → w' ≡ 255 * m + w
    → m ≤ w + w
    → w < m
    → signed_of m' w' ≡ signed_of m w
wider_negative m m' w w' em ew h k = ground arith

top_clear :
    (c : ℕ) (bs : List ℕ)
    → c < 128
    → Bytes bs
    → number_of (c ∷ bs) + number_of (c ∷ bs) < 256 ^ length (c ∷ bs)
top_clear c bs h k =
    let le : c ≤ 127 = omega arith in
    omega (arith, pow-suc 256 (length bs), number_of-lt bs k, mul-le-mul_right (256 ^ length bs) le)

top_set :
    (c : ℕ) (bs : List ℕ)
    → 128 ≤ c
    → 256 ^ length (c ∷ bs) ≤ number_of (c ∷ bs) + number_of (c ∷ bs)
top_set c bs h = omega (arith, pow-suc 256 (length bs), mul-le-mul_right (256 ^ length bs) h)

drop_clear :
    (c : ℕ) (bs : List ℕ) → c < 128 → Bytes bs → signed_number (0 ∷ c ∷ bs) ≡ signed_number (c ∷ bs)
drop_clear c bs h k =
    wider_nonnegative (256 ^ length (c ∷ bs)) (256 ^ length (0 ∷ c ∷ bs)) (number_of (c ∷ bs))
      (number_of (0 ∷ c ∷ bs)) (pow-suc 256 (length (c ∷ bs))) (omega arith) (top_clear c bs h k)

drop_set :
    (c : ℕ) (bs : List ℕ)
    → 128 ≤ c
    → Bytes (c ∷ bs)
    → signed_number (255 ∷ c ∷ bs) ≡ signed_number (c ∷ bs)
drop_set c bs h k =
    wider_negative (256 ^ length (c ∷ bs)) (256 ^ length (255 ∷ c ∷ bs)) (number_of (c ∷ bs))
      (number_of (255 ∷ c ∷ bs)) (pow-suc 256 (length (c ∷ bs))) (omega arith) (top_set c bs h)
      (number_of-lt (c ∷ bs) k)

signed_number-trim_nonnegative :
    (bs : List ℕ) → Bytes bs → signed_number (trim_nonnegative bs) ≡ signed_number bs
unfolding trim_nonnegative
signed_number-trim_nonnegative [] h = refl
signed_number-trim_nonnegative (b ∷ []) h = refl
signed_number-trim_nonnegative (b ∷ c ∷ bs) (hb, h) = elim (Bool-cases (b == 0 && ltb c 128)) [
  | inl e ↦
      let zero_byte : b ≡ 0 = ground arith in
      let clear : c < 128 = ground arith in
      rw e (
        signed_number-trim_nonnegative (c ∷ bs) h
        ∙ sym (drop_clear c bs clear h.1)
        ∙ ap (λ b. signed_number (b ∷ c ∷ bs)) (sym zero_byte))
  | inr e ↦ rw e refl
]

signed_number-trim_negative :
    (bs : List ℕ) → Bytes bs → signed_number (trim_negative bs) ≡ signed_number bs
unfolding trim_negative
signed_number-trim_negative [] h = refl
signed_number-trim_negative (b ∷ []) h = refl
signed_number-trim_negative (b ∷ c ∷ bs) (hb, h) = elim (Bool-cases (b == 255 && leb 128 c)) [
  | inl e ↦
      let ones : b ≡ 255 = ground arith in
      let set_bit : 128 ≤ c = ground arith in
      rw e (
        signed_number-trim_negative (c ∷ bs) h
        ∙ sym (drop_set c bs set_bit h)
        ∙ ap (λ b. signed_number (b ∷ c ∷ bs)) (sym ones))
  | inr e ↦ rw e refl
]

trim_nonnegative-Payload : (bs : List ℕ) → Payload bs → Payload (trim_nonnegative bs)
unfolding trim_nonnegative
trim_nonnegative-Payload [] v = v
trim_nonnegative-Payload (b ∷ []) v = v
trim_nonnegative-Payload (b ∷ c ∷ bs) v = elim (Bool-cases (b == 0 && ltb c 128)) [
  | inl e ↦ rw e (trim_nonnegative-Payload (c ∷ bs) (tail-Payload b c bs v))
  | inr e ↦ rw e v
]

trim_negative-Payload : (bs : List ℕ) → Payload bs → Payload (trim_negative bs)
unfolding trim_negative
trim_negative-Payload [] v = v
trim_negative-Payload (b ∷ []) v = v
trim_negative-Payload (b ∷ c ∷ bs) v = elim (Bool-cases (b == 255 && leb 128 c)) [
  | inl e ↦ rw e (trim_negative-Payload (c ∷ bs) (tail-Payload b c bs v))
  | inr e ↦ rw e v
]

pub encode_uint-Payload : (v : ℕ) → Payload (encode_uint v)
unfolding encode_uint
encode_uint-Payload v = elim (Bool-cases (v == 0)) [
  | inl e ↦ rw e record { bytes = omega arith; some_byte = omega arith; at_most = omega arith }
  | inr e ↦ rw e (trim_zeros-Payload (put_uint64 v) (put_uint64-Payload v))
]

-- encodeUint writes the number.
pub number_of-encode_uint : (v : ℕ) → v < 2 ^ 64 → number_of (encode_uint v) ≡ v
unfolding encode_uint
number_of-encode_uint v h = elim (Bool-cases (v == 0)) [
  | inl e ↦ rw e ground arith
  | inr e ↦ rw e (number_of-trim_zeros (put_uint64 v) ∙ number_of-put_uint64 v h)
]

pub encode_int-Payload : (v : ℤ) → Payload (encode_int v)
unfolding encode_int
encode_int-Payload (pos n) = trim_nonnegative-Payload _ (put_uint64-Payload _)
encode_int-Payload (negsuc n) = trim_negative-Payload _ (put_uint64-Payload _)

as_of_word : (w : ℕ) → signed_of (256 ^ 8) w ≡ of_word (2 ^ 63) w
unfolding of_word
as_of_word w = ground arith

signed_number-put_uint64 :
    (v : ℤ) → FitsSigned (2 ^ 63) v → signed_number (put_uint64 (to_word (2 ^ 64) v)) ≡ v
signed_number-put_uint64 v h =
    let small : to_word (2 ^ 64) v < 2 ^ 64 = to_word-lt (2 ^ 63) v h in
    let long : length (put_uint64 (to_word (2 ^ 64) v)) ≡ 8 =
      length-put_uint64 (to_word (2 ^ 64) v) in
    rw (long, number_of-put_uint64 (to_word (2 ^ 64) v) small)
      (as_of_word (to_word (2 ^ 64) v) ∙ of_word-to_word (2 ^ 63) v h)

-- encodeInt writes the number in two's complement.
pub signed_number-encode_int : (v : ℤ) → FitsSigned (2 ^ 63) v → signed_number (encode_int v) ≡ v
unfolding encode_int
signed_number-encode_int (pos n) h =
    signed_number-trim_nonnegative _ (put_uint64-Payload _).bytes
    ∙ signed_number-put_uint64 (pos n) h
signed_number-encode_int (negsuc n) h =
    signed_number-trim_negative _ (put_uint64-Payload _).bytes
    ∙ signed_number-put_uint64 (negsuc n) h
