-- ===== src/Bacnet/Value/Numeric.antt =====
-- The header of a numeric value, and its contents behind the header.
use multiple_protocol_contro.Common.{Bool-cases, List, [], arith, drop-append, false, inl, inr}
use multiple_protocol_contro.Common.{leb, length, length-append, ltb, refl, take-append}
use multiple_protocol_contro.Common.{true, ℕ, ◌%◌, ◌*◌, ◌++◌, ◌+◌, ◌/◌, ◌==◌, ◌∙◌, ◌∷◌}
use multiple_protocol_contro.Common.{◌≡◌, ◌≤◌}
use multiple_protocol_contro.Common.Bits.{bit_or_fields}
use multiple_protocol_contro.Bacnet.Value.{build_numeric_value, content_length, numeric_slice}
use multiple_protocol_contro.Bacnet.Value.{parse_application_value, parse_tagged, shift_in}
use multiple_protocol_contro.Bacnet.Value.Trim.{Payload}
use multiple_protocol_contro.Bacnet.Value.Words.{at_most_power, number_of, shift_in-number_of}
use multiple_protocol_contro.Modbus.Encode.{header}
use multiple_protocol_contro.Values.{Floats, ok, ◌>>=◌}

-- The slice of the contents, of a header, the contents and anything after them.
pub numeric_slice-append :
    (header raw rest : List ℕ)
    → Payload raw
    → numeric_slice (header ++ (raw ++ rest)) (length header) (length raw) ≡ ok raw
unfolding numeric_slice
numeric_slice-append header raw rest v =
    let fits : leb (length header + length raw) (length (header ++ (raw ++ rest))) ≡ true =
      ground (arith, length-append header (raw ++ rest), length-append raw rest) in
    let lower : ltb 0 (length raw) ≡ true = ground (arith, v.some_byte) in
    let upper : leb (length raw) 8 ≡ true = ground (arith, v.at_most) in
    rw (fits, lower, upper, drop-append header (raw ++ rest), take-append raw rest) refl

pub shift_in_whole : (bs : List ℕ) → Payload bs → shift_in 0 bs ≡ number_of bs
shift_in_whole bs v =
    shift_in-number_of 0 bs v.bytes (at_most_power (length bs) v.at_most) ∙ omega arith

module _ (fl : Floats) where
  -- The tag octet of a numeric value, of tag number q and length marker n.
  header_octet :
      (q n : ℕ) (rest : List ℕ)
      → 2 ≤ q
      → n ≤ 5
      → parse_application_value fl ((q * 16 + n) ∷ rest) ≡ (
          content_length fl n ((q * 16 + n) ∷ rest) >>= λ c.
          parse_tagged fl q ((q * 16 + n) ∷ rest) c.1 c.0)
  unfolding parse_application_value
  header_octet q n rest hq hn =
      let e1 : ((q * 16 + n) / 8 % 2 == 1) ≡ false = ground arith in
      let e2 : ((q * 16 + n) / 16 == 1) ≡ false = ground arith in
      let e3 : ltb 5 n ≡ false = ground arith in
      let e4 : (q * 16 + n) % 8 ≡ n = omega arith in
      let e5 : (q * 16 + n) / 16 ≡ q = omega arith in rw (e1, e2, e4, e5, e3) refl

  -- What is parsed of a numeric value: its contents are taken behind the header.
  pub parse-build_numeric :
      (q : ℕ) (raw rest : List ℕ)
      → 2 ≤ q
      → Payload raw
      → (header : List ℕ) × (build_numeric_value (q * 16) raw ≡ header ++ raw)
        × (parse_application_value fl (header ++ (raw ++ rest))
            ≡ parse_tagged fl q (header ++ (raw ++ rest)) (length header) (length raw))
  unfolding build_numeric_value content_length
  parse-build_numeric q raw rest hq v = elim (Bool-cases (leb (length raw) 4)) [
    | inl e ↦
        let short : length raw ≤ 4 = ground arith in
        let small : length raw % 256 ≡ length raw = omega arith in
        let plain : (length raw == 5) ≡ false = ground arith in
        (
          (q * 16 + length raw) ∷ [],
          rw (e, small, bit_or_fields 4 q (length raw) (omega arith)) refl,
          header_octet q (length raw) (raw ++ rest) hq (omega arith) ∙ rw plain refl,
        )
    | inr e ↦
        let small : length raw % 256 ≡ length raw = omega (arith, v.at_most) in
        let two : leb 2 (length ((q * 16 + 5) ∷ length raw ∷ (raw ++ rest))) ≡ true =
          ground arith in
        let marker : ltb (length raw) 254 ≡ true = ground (arith, v.at_most) in
        (
          (q * 16 + 5) ∷ length raw ∷ [],
          rw (e, small, bit_or_fields 4 q 5 (omega arith)) refl,
          header_octet q 5 (length raw ∷ (raw ++ rest)) hq (omega arith) ∙ rw (two, marker) refl,
        )
  ]
