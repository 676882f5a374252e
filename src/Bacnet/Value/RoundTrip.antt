-- ===== src/Bacnet/Value/RoundTrip.antt =====
-- What the parser of application values reads of what the builder writes.
use multiple_protocol_contro.Common.{List, ap, append_assoc, arith, false, leb, length}
use multiple_protocol_contro.Common.{length-append, refl, suc, sym, true, ℕ, ◌%◌, ◌*◌, ◌++◌, ◌+◌}
use multiple_protocol_contro.Common.{◌/◌, ◌<◌, ◌^◌, ◌∙◌, ◌∷◌, ◌≡◌}
use multiple_protocol_contro.Common.Int.{FitsSigned, FitsSigned-wider, negsuc, pos, ℤ}
use multiple_protocol_contro.Bacnet.Value.{build_application_value, build_integer}
use multiple_protocol_contro.Bacnet.Value.{build_numeric_value, build_signed_value}
use multiple_protocol_contro.Bacnet.Value.{build_unsigned_value, content_length, encode_int}
use multiple_protocol_contro.Bacnet.Value.{encode_uint, parse_application_value, parse_double}
use multiple_protocol_contro.Bacnet.Value.{parse_real, parse_signed, parse_tagged, parse_unsigned}
use multiple_protocol_contro.Bacnet.Value.{shift_in, sign_extend}
use multiple_protocol_contro.Bacnet.Value.Numeric.{numeric_slice-append, parse-build_numeric}
use multiple_protocol_contro.Bacnet.Value.Numeric.{shift_in_whole}
use multiple_protocol_contro.Bacnet.Value.Trim.{Payload, encode_int-Payload, encode_uint-Payload}
use multiple_protocol_contro.Bacnet.Value.Trim.{number_of-encode_uint, signed_number-encode_int}
use multiple_protocol_contro.Bacnet.Value.Words.{number_of, number_of-lt, sign_extend_word}
use multiple_protocol_contro.Modbus.Bytes.{length-put_uint32, put_uint32, put_uint64, uint32_of}
use multiple_protocol_contro.Modbus.Bytes.{uint64_of}
use multiple_protocol_contro.Modbus.Encode.{header}
use multiple_protocol_contro.Values.{FloatLaws, Floats, InRange, IntKind, Value, ValueOf, bools}
use multiple_protocol_contro.Values.{integer, items, nil, number, ok, ok-injective, other, text}
use multiple_protocol_contro.Values.Coerce.Exact.{IsTyped}

module _ (fl : Floats) where
  parse-build_unsigned :
      (n : ℕ) (rest : List ℕ)
      → n < 2 ^ 64
      → parse_application_value fl (build_unsigned_value n ++ rest)
        ≡ ok (integer IntKind.uint64 (pos n), length (build_unsigned_value n))
  unfolding build_unsigned_value parse_tagged parse_unsigned
  parse-build_unsigned n rest small =
      let raw = encode_uint n in
      let v : Payload raw = encode_uint-Payload n in
      let (header, built, parsed) = parse-build_numeric fl 2 raw rest (omega arith) v in
      let value : shift_in 0 raw ≡ n = shift_in_whole raw v ∙ number_of-encode_uint n small in
      rw
        (
          built,
          append_assoc header raw rest,
          parsed,
          numeric_slice-append header raw rest v,
          value,
          length-append header raw,
        )
        refl

  parse-build_signed :
      (n : ℤ) (rest : List ℕ)
      → FitsSigned (2 ^ 63) n
      → parse_application_value fl (build_signed_value n ++ rest)
        ≡ ok (integer IntKind.int64 n, length (build_signed_value n))
  unfolding build_signed_value parse_tagged parse_signed
  parse-build_signed n rest small =
      let raw = encode_int n in
      let v : Payload raw = encode_int-Payload n in
      let (header, built, parsed) = parse-build_numeric fl 3 raw rest (omega arith) v in
      let value : sign_extend (shift_in 0 raw) (length raw) ≡ n = rw (shift_in_whole raw v) (
        sign_extend_word (length raw) (number_of raw) v.some_byte v.at_most
          (number_of-lt raw v.bytes)
        ∙ signed_number-encode_int n small) in
      rw
        (
          built,
          append_assoc header raw rest,
          parsed,
          numeric_slice-append header raw rest v,
          value,
          length-append header raw,
        )
        refl

  parse-real :
      (w : ℕ) (rest : List ℕ)
      → w < 2 ^ 32
      → parse_application_value fl (68 ∷ (put_uint32 w ++ rest))
        ≡ ok (Value.float32 (fl.of_bits32 w), 5)
  unfolding parse_application_value content_length parse_tagged parse_real put_uint32 uint32_of
  parse-real w rest small =
      let fits : leb 5 (suc (suc (suc (suc (suc (length rest)))))) ≡ true = ground arith in
      let value : w / 2 ^ 24 % 256 * 2 ^ 24
            + w / 2 ^ 16 % 256 * 2 ^ 16
            + w / 2 ^ 8 % 256 * 2 ^ 8
            + w % 256
          ≡ w =
        omega arith in
      rw (fits, value) refl

  parse-double :
      (w : ℕ) (rest : List ℕ)
      → w < 2 ^ 64
      → parse_application_value fl (build_numeric_value 80 (put_uint64 w) ++ rest)
        ≡ ok (Value.float64 (fl.of_bits64 w), 10)
  unfolding parse_application_value content_length parse_tagged parse_double put_uint64 uint64_of
      build_numeric_value
  parse-double w rest small =
      let two : leb 2 (suc (suc (suc (suc (suc (suc (suc (suc (suc (suc (length rest)))))))))))
          ≡ true =
        ground arith in
      let fits : leb 10 (suc (suc (suc (suc (suc (suc (suc (suc (suc (suc (length rest)))))))))))
          ≡ true =
        ground arith in
      let value : w / 2 ^ 56 % 256 * 2 ^ 56
            + w / 2 ^ 48 % 256 * 2 ^ 48
            + w / 2 ^ 40 % 256 * 2 ^ 40
            + w / 2 ^ 32 % 256 * 2 ^ 32
            + w / 2 ^ 24 % 256 * 2 ^ 24
            + w / 2 ^ 16 % 256 * 2 ^ 16
            + w / 2 ^ 8 % 256 * 2 ^ 8
            + w % 256
          ≡ w =
        omega arith in
      rw (two, fits, value) refl

  parse_flag :
      (rest : List ℕ)
      → (parse_application_value fl (17 ∷ rest) ≡ ok (Value.bool true, 1))
        × (parse_application_value fl (16 ∷ rest) ≡ ok (Value.bool false, 1))
  unfolding parse_application_value
  parse_flag rest = (refl, refl)

length-double : (w : ℕ) → length (build_numeric_value 80 (put_uint64 w)) ≡ 10
unfolding build_numeric_value put_uint64
length-double w = refl

-- What a value is read back as: integers have 64 bits.
abbrev pub read_kind : IntKind → IntKind
read_kind IntKind.int = IntKind.int64
read_kind IntKind.int8 = IntKind.int64
read_kind IntKind.int16 = IntKind.int64
read_kind IntKind.int32 = IntKind.int64
read_kind IntKind.int64 = IntKind.int64
read_kind _ = IntKind.uint64

abbrev pub read_value : {F32 F64 : Type 0} → Value F32 F64 → Value F32 F64
read_value (integer k n) = integer (read_kind k) n
read_value v = v

module _ (fl : Floats) (laws : FloatLaws fl) where
  parse-build_integer :
      (k : IntKind) (n : ℤ) (rest : List ℕ)
      → InRange k n
      → parse_application_value fl (build_integer fl k n ++ rest)
        ≡ ok (integer (read_kind k) n, length (build_integer fl k n))
  unfolding build_integer
  parse-build_integer IntKind.int n rest h = parse-build_signed fl n rest h
  parse-build_integer IntKind.int8 n rest h =
      parse-build_signed fl n rest (FitsSigned-wider (2 ^ 7) (2 ^ 63) n (omega arith) h)
  parse-build_integer IntKind.int16 n rest h =
      parse-build_signed fl n rest (FitsSigned-wider (2 ^ 15) (2 ^ 63) n (omega arith) h)
  parse-build_integer IntKind.int32 n rest h =
      parse-build_signed fl n rest (FitsSigned-wider (2 ^ 31) (2 ^ 63) n (omega arith) h)
  parse-build_integer IntKind.int64 n rest h = parse-build_signed fl n rest h
  parse-build_integer IntKind.uint (pos n) rest h = parse-build_unsigned fl n rest h
  parse-build_integer IntKind.uint8 (pos n) rest h = parse-build_unsigned fl n rest (omega arith)
  parse-build_integer IntKind.uint16 (pos n) rest h = parse-build_unsigned fl n rest (omega arith)
  parse-build_integer IntKind.uint32 (pos n) rest h = parse-build_unsigned fl n rest (omega arith)
  parse-build_integer IntKind.uint64 (pos n) rest h = parse-build_unsigned fl n rest h
  parse-build_integer IntKind.uint (negsuc n) rest h = absurd h
  parse-build_integer IntKind.uint8 (negsuc n) rest h = absurd h
  parse-build_integer IntKind.uint16 (negsuc n) rest h = absurd h
  parse-build_integer IntKind.uint32 (negsuc n) rest h = absurd h
  parse-build_integer IntKind.uint64 (negsuc n) rest h = absurd h

  -- A value of the Go types that the builder takes, in the range of its type, is read back from the
  -- bytes written for it, whatever follows them, with the count of exactly those bytes: integers at
  -- 64 bits with their sign, truth values and both floating-point types as they are.
  pub parse-build :
      (v : ValueOf fl) (bytes rest : List ℕ)
      → IsTyped v
      → build_application_value fl v ≡ ok bytes
      → parse_application_value fl (bytes ++ rest) ≡ ok (read_value v, length bytes)
  unfolding build_application_value
  parse-build (integer k n) bytes rest h e =
      rw (sym (ok-injective e)) (parse-build_integer k n rest h)
  parse-build (Value.bool true) bytes rest h e = rw (sym (ok-injective e)) (parse_flag fl rest).0
  parse-build (Value.bool false) bytes rest h e = rw (sym (ok-injective e)) (parse_flag fl rest).1
  parse-build (Value.float32 x) bytes rest h e =
      rw (sym (ok-injective e), length-put_uint32 (fl.bits32 x))
        (parse-real fl (fl.bits32 x) rest (laws.bits32_range x)
          ∙ ap (λ y. ok (Value.float32 y, 5)) (laws.of_bits32-bits32 x))
  parse-build (Value.float64 x) bytes rest h e =
      let long : length (build_numeric_value 80 (put_uint64 (fl.bits64 x))) ≡ 10 =
        length-double (fl.bits64 x) in
      rw (sym (ok-injective e), long)
        (parse-double fl (fl.bits64 x) rest (laws.bits64_range x)
          ∙ ap (λ y. ok (Value.float64 y, 10)) (laws.of_bits64-bits64 x))
  parse-build nil bytes rest h e = cc
  parse-build (number s) bytes rest h e = cc
  parse-build (text s) bytes rest h e = cc
  parse-build (bools bs) bytes rest h e = cc
  parse-build (items vs) bytes rest h e = cc
  parse-build other bytes rest h e = cc
