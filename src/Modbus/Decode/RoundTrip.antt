-- ===== src/Modbus/Decode/RoundTrip.antt =====
-- A register value that the encoder writes, read with the same type and byte order.
use multiple_protocol_contro.Common.{List, arith, false, length, ltb, refl, sym, take_all}
use multiple_protocol_contro.Common.{to_lower, true, ℕ, ◌*◌, ◌^◌, ◌∙◌, ◌≡◌, ◌≤◌}
use multiple_protocol_contro.Common.Int.{FitsSigned, of_word-to_word, pos, to_word, to_word-lt}
use multiple_protocol_contro.Modbus.Bytes.{put_uint16, put_uint32, put_uint64, uint16_of-put}
use multiple_protocol_contro.Modbus.Bytes.{uint32_of-put, uint64_of-put}
use multiple_protocol_contro.Modbus.Decode.{decode_register_value, pad_bytes, required_bytes}
use multiple_protocol_contro.Modbus.Decode.{value_of_bytes}
use multiple_protocol_contro.Modbus.Encode.{command_type, encode_register_value, explicit_bytes}
use multiple_protocol_contro.Modbus.Encode.Shape.{int_bytes-ok, word_bytes-ok}
use multiple_protocol_contro.Modbus.Endian.{apply_endian, apply_endian_twice, length-apply_endian}
use multiple_protocol_contro.Modbus.Endian.{normalize_endian}
use multiple_protocol_contro.Modbus.Registers.{ModbusParam, RegisterType, bool, default_quantity}
use multiple_protocol_contro.Modbus.Registers.{double, float, float32, float64, int16, int32}
use multiple_protocol_contro.Modbus.Registers.{int64, quantity_for_param, quantity_of}
use multiple_protocol_contro.Modbus.Registers.{register_type, short, uint16, uint32, uint64}
use multiple_protocol_contro.Modbus.Registers.{unknown, ushort}
use multiple_protocol_contro.Values.{FloatLaws, Floats, IntKind, Result, Value, ValueOf, err}
use multiple_protocol_contro.Values.{integer, map-ok, ok, unsupported_type, ◌>>=◌}
use multiple_protocol_contro.Values.Coerce.{coerce_exact_int64, coerce_exact_uint64}
use multiple_protocol_contro.Values.Coerce.{coerce_float64, coerce_int64, coerce_uint64}
use multiple_protocol_contro.Values.Coerce.Exact.{IsTyped, coerce_exact_int64_range}
use multiple_protocol_contro.Values.Coerce.Exact.{coerce_exact_uint64_range}

pad_put : (w : ℕ) → pad_bytes (put_uint64 w) 8 ≡ put_uint64 w
unfolding pad_bytes put_uint64
pad_put w = refl

default-pos : (t : RegisterType) → 1 ≤ default_quantity t true
unfolding default_quantity
default-pos short = omega arith
default-pos _ = omega arith

-- With no quantity the type's own width is read.
required_default :
    (p : ModbusParam)
    → p.explicit ≡ true
    → p.quantity ≡ pos 0
    → required_bytes p ≡ default_quantity (register_type (to_lower p.data_type)) true * 2
unfolding required_bytes quantity_for_param quantity_of
required_default p ex q =
    rw (ex, q) (ground (arith, default-pos (register_type (to_lower p.data_type))))

module _ (fl : Floats) where
  -- What a reader of the register should see of a command value: the number that the coercion of the
  -- write point's type gives, as a value of the Go type for it.
  abbrev pub read_back : RegisterType → ValueOf fl → Result (ValueOf fl)
  read_back short v = coerce_int64 fl v >>= λ n. ok (integer IntKind.int16 n)
  read_back int16 v = coerce_exact_int64 fl v >>= λ n. ok (integer IntKind.int16 n)
  read_back ushort v = coerce_uint64 fl v >>= λ n. ok (integer IntKind.uint16 (pos n))
  read_back uint16 v = coerce_exact_uint64 fl v >>= λ n. ok (integer IntKind.uint16 (pos n))
  read_back int32 v = coerce_exact_int64 fl v >>= λ n. ok (integer IntKind.int32 n)
  read_back uint32 v = coerce_exact_uint64 fl v >>= λ n. ok (integer IntKind.uint32 (pos n))
  read_back int64 v = coerce_exact_int64 fl v >>= λ n. ok (integer IntKind.int64 n)
  read_back uint64 v = coerce_exact_uint64 fl v >>= λ n. ok (integer IntKind.uint64 (pos n))
  read_back float v = coerce_float64 fl v >>= λ f. ok (Value.float32 (fl.narrow f))
  read_back float32 v = coerce_float64 fl v >>= λ f. ok (Value.float32 (fl.narrow f))
  read_back double v = coerce_float64 fl v >>= λ f. ok (Value.float64 f)
  read_back float64 v = coerce_float64 fl v >>= λ f. ok (Value.float64 f)
  read_back _ v = err unsupported_type

  -- The bytes that the encoder's switch gives, in the decoder's switch.
  module _ (laws : FloatLaws fl) where
    value_of_explicit :
        (t : RegisterType) (v : ValueOf fl) {bytes : List ℕ}
        → IsTyped v
        → explicit_bytes fl t v ≡ ok bytes
        → value_of_bytes fl t true bytes ≡ read_back t v
    unfolding explicit_bytes value_of_bytes
    value_of_explicit short v i h =
        let (n, e, f, b) = int_bytes-ok fl (2 ^ 15) put_uint16 (coerce_int64 fl v) h in
        rw (b, e) (rw (uint16_of-put _ (to_word-lt (2 ^ 15) n f), of_word-to_word (2 ^ 15) n f))
    value_of_explicit int16 v i h =
        let (n, e, f, b) = int_bytes-ok fl (2 ^ 15) put_uint16 (coerce_exact_int64 fl v) h in
        rw (b, e) (rw (uint16_of-put _ (to_word-lt (2 ^ 15) n f), of_word-to_word (2 ^ 15) n f))
    value_of_explicit ushort v i h =
        let (n, e, f, b) = word_bytes-ok fl (2 ^ 16) put_uint16 (coerce_uint64 fl v) h in
        rw (b, e, uint16_of-put n f)
    value_of_explicit uint16 v i h =
        let (n, e, f, b) = word_bytes-ok fl (2 ^ 16) put_uint16 (coerce_exact_uint64 fl v) h in
        rw (b, e, uint16_of-put n f)
    value_of_explicit int32 v i h =
        let (n, e, f, b) = int_bytes-ok fl (2 ^ 31) put_uint32 (coerce_exact_int64 fl v) h in
        rw (b, e) (rw (uint32_of-put _ (to_word-lt (2 ^ 31) n f), of_word-to_word (2 ^ 31) n f))
    value_of_explicit uint32 v i h =
        let (n, e, f, b) = word_bytes-ok fl (2 ^ 32) put_uint32 (coerce_exact_uint64 fl v) h in
        rw (b, e, uint32_of-put n f)
    value_of_explicit float v i h =
        let (f, e, b) =
          map-ok (coerce_float64 fl v) (λ f. put_uint32 (fl.bits32 (fl.narrow f))) h in
        rw (b, e)
          (rw (
            uint32_of-put _ (laws.bits32_range (fl.narrow f)),
            laws.of_bits32-bits32 (fl.narrow f),
          ))
    value_of_explicit float32 v i h =
        let (f, e, b) =
          map-ok (coerce_float64 fl v) (λ f. put_uint32 (fl.bits32 (fl.narrow f))) h in
        rw (b, e)
          (rw (
            uint32_of-put _ (laws.bits32_range (fl.narrow f)),
            laws.of_bits32-bits32 (fl.narrow f),
          ))
    value_of_explicit double v i h =
        let (f, e, b) = map-ok (coerce_float64 fl v) (λ f. put_uint64 (fl.bits64 f)) h in
        rw (b, e, pad_put _) (rw (uint64_of-put _ (laws.bits64_range f), laws.of_bits64-bits64 f))
    value_of_explicit float64 v i h =
        let (f, e, b) = map-ok (coerce_float64 fl v) (λ f. put_uint64 (fl.bits64 f)) h in
        rw (b, e, pad_put _) (rw (uint64_of-put _ (laws.bits64_range f), laws.of_bits64-bits64 f))
    value_of_explicit int64 v i h =
        let (n, e, b) = map-ok (coerce_exact_int64 fl v) (λ n. put_uint64 (to_word (2 ^ 64) n)) h in
        let f : FitsSigned (2 ^ 63) n = coerce_exact_int64_range fl laws v n i e in
        rw (b, e, pad_put _)
          (rw (uint64_of-put _ (to_word-lt (2 ^ 63) n f), of_word-to_word (2 ^ 63) n f))
    value_of_explicit uint64 v i h =
        let (n, e, b) = map-ok (coerce_exact_uint64 fl v) put_uint64 h in
        rw (b, e, pad_put _) (rw (uint64_of-put n (coerce_exact_uint64_range fl laws v n i e)))
    value_of_explicit bool v i h = cc
    value_of_explicit unknown v i h = cc

    length-explicit :
        (t : RegisterType) (v : ValueOf fl) {bytes : List ℕ}
        → explicit_bytes fl t v ≡ ok bytes
        → length bytes ≡ default_quantity t true * 2
    unfolding explicit_bytes default_quantity put_uint16 put_uint32 put_uint64
    length-explicit short v h = rw (int_bytes-ok fl (2 ^ 15) put_uint16 (coerce_int64 fl v) h).3
    length-explicit int16 v h =
        rw (int_bytes-ok fl (2 ^ 15) put_uint16 (coerce_exact_int64 fl v) h).3
    length-explicit ushort v h = rw (word_bytes-ok fl (2 ^ 16) put_uint16 (coerce_uint64 fl v) h).3
    length-explicit uint16 v h =
        rw (word_bytes-ok fl (2 ^ 16) put_uint16 (coerce_exact_uint64 fl v) h).3
    length-explicit int32 v h =
        rw (int_bytes-ok fl (2 ^ 31) put_uint32 (coerce_exact_int64 fl v) h).3
    length-explicit uint32 v h =
        rw (word_bytes-ok fl (2 ^ 32) put_uint32 (coerce_exact_uint64 fl v) h).3
    length-explicit float v h =
        rw (map-ok (coerce_float64 fl v) (λ f. put_uint32 (fl.bits32 (fl.narrow f))) h).2
    length-explicit float32 v h =
        rw (map-ok (coerce_float64 fl v) (λ f. put_uint32 (fl.bits32 (fl.narrow f))) h).2
    length-explicit double v h =
        rw (map-ok (coerce_float64 fl v) (λ f. put_uint64 (fl.bits64 f)) h).2
    length-explicit float64 v h =
        rw (map-ok (coerce_float64 fl v) (λ f. put_uint64 (fl.bits64 f)) h).2
    length-explicit int64 v h =
        rw (map-ok (coerce_exact_int64 fl v) (λ n. put_uint64 (to_word (2 ^ 64) n)) h).2
    length-explicit uint64 v h = rw (map-ok (coerce_exact_uint64 fl v) put_uint64 h).2
    length-explicit bool v h = cc
    length-explicit unknown v h = cc

    -- Of a point whose type is explicit, with no quantity and a name that trimming leaves alone: what
    -- the encoder writes for a value, the collector decodes, at the same byte order, to the number that
    -- the value was coerced to.
    pub decode-encode :
        (p : ModbusParam) (v : ValueOf fl) (bytes : List ℕ)
        → IsTyped v
        → p.explicit ≡ true
        → p.quantity ≡ pos 0
        → command_type p.data_type ≡ register_type (to_lower p.data_type)
        → encode_register_value fl v p.data_type (normalize_endian p.endian) true ≡ ok bytes
        → decode_register_value fl p bytes ≡ read_back (register_type (to_lower p.data_type)) v
    unfolding encode_register_value decode_register_value
    decode-encode p v bytes i ex q name h =
        let t = register_type (to_lower p.data_type) in
        let e = normalize_endian p.endian in
        let (raw, eraw, b) =
          map-ok (explicit_bytes fl (command_type p.data_type) v) (apply_endian e) h in
        let eraw' : explicit_bytes fl t v ≡ ok raw = rw name at eraw in
        let long : length bytes ≡ default_quantity t true * 2 =
          rw b (length-apply_endian e raw ∙ length-explicit t v eraw') in
        let need : required_bytes p ≡ length bytes = required_default p ex q ∙ sym long in
        let enough : ltb (length bytes) (length bytes) ≡ false = ground arith in
        rw
          (
            need,
            enough,
            take_all (length bytes) bytes (omega arith),
            ex,
            b,
            apply_endian_twice e raw,
          )
          (value_of_explicit t v i eraw')
