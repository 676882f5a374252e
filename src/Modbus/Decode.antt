-- ===== src/Modbus/Decode.antt =====
-- The reading half of internal/collector/modbus.go: request frames, responses and their values.
pub mod RoundTrip
pub mod Panic
use multiple_protocol_contro.Common.{Bool, List, Option, drop, false, get_or, if◌then◌else◌, leb}
use multiple_protocol_contro.Common.{length, ltb, none, not, replicate, some, take, to_lower}
use multiple_protocol_contro.Common.{true, ℕ, ◌%◌, ◌*◌, ◌++◌, ◌+◌, ◌-◌, ◌/◌, ◌==◌, ◌^◌, ◌||◌, ◌∷◌}
use multiple_protocol_contro.Common.Int.{of_word, pos, pos_part}
use multiple_protocol_contro.Modbus.Bytes.{put_uint16, uint16_of, uint32_of, uint64_of}
use multiple_protocol_contro.Modbus.Crc.{append_crc, verify_crc}
use multiple_protocol_contro.Modbus.Endian.{apply_endian, normalize_endian}
use multiple_protocol_contro.Modbus.Registers.{ModbusParam, RegisterType, bool, double, float}
use multiple_protocol_contro.Modbus.Registers.{float32, float64, int16, int32, int64}
use multiple_protocol_contro.Modbus.Registers.{quantity_for_param, register_type, short, uint32}
use multiple_protocol_contro.Modbus.Registers.{uint64}
use multiple_protocol_contro.Values.{Floats, IntKind, Result, Value, ValueOf, bit_range}
use multiple_protocol_contro.Values.{crc_mismatch, empty_payload, err, integer, ok, panic}
use multiple_protocol_contro.Values.{require, short_frame, short_payload, unsupported_function}
use multiple_protocol_contro.Values.{zero_quantity, ◌>>=◌, ◌>>◌}

-- `IntKind`'s names, beside the type labels of the same spelling.
abbrev pub is_read_code : ℕ → Bool
is_read_code fc = fc == 1 || fc == 2 || fc == 3 || fc == 4

-- `start` and `quantity` are uint16.
unfoldable pub build_read_frame : ℕ → ℕ → ℕ → ℕ → Result (List ℕ)
build_read_frame device function_code start quantity = do
  require (is_read_code function_code) unsupported_function
  require (not (quantity == 0)) zero_quantity
  ok (append_crc (device % 256 ∷ function_code % 256 ∷ (put_uint16 start ++ put_uint16 quantity)))

-- The arithmetic is that of uint16 and wraps.
unfoldable pub expected_response_length : ℕ → ℕ → Result ℕ
expected_response_length function_code quantity =
    if function_code == 1 || function_code == 2
    then ok (3 + (quantity + 7) % 2 ^ 16 / 8 + 2)
    else if function_code == 3 || function_code == 4
    then ok (3 + quantity * 2 % 2 ^ 16 + 2)
    else err unsupported_function

-- `frame[3 : 3+byteCount]` behind the two length checks.
unfoldable pub payload_of : List ℕ → Result (List ℕ)
payload_of frame = do
  require (not (ltb (length frame) 5)) short_frame
  let count = get_or frame 2 0
  require (not (ltb (length frame) (3 + count + 2))) short_payload
  ok (take count (drop 3 frame))

-- `padBytes(data, 8)`.
unfoldable pub pad_bytes : List ℕ → ℕ → List ℕ
pad_bytes bytes size =
    if leb size (length bytes) then take size bytes else replicate (size - length bytes) 0 ++ bytes

-- A slice expression beyond the data panics.
of_slice : Option ℕ → Result ℕ
of_slice none = panic
of_slice (some n) = ok n

-- A quantity of 0 (the uint16 wrapped) reads two bytes.
unfoldable pub required_bytes : ModbusParam → ℕ
required_bytes p = let n = quantity_for_param p * 2 in if n == 0 then 2 else n

module _ (fl : Floats) where
  open fl use {of_bits32, of_bits64}

  -- The type switch of `decodeRegisterValue`, on the bytes in big-endian order.
  unfoldable pub value_of_bytes : RegisterType → Bool → List ℕ → Result (ValueOf fl)
  unfolding of_slice
  value_of_bytes short explicit bytes =
      of_slice (uint16_of bytes) >>= λ w. ok (integer IntKind.int16 (of_word (2 ^ 15) w))
  value_of_bytes int16 explicit bytes =
      of_slice (uint16_of bytes) >>= λ w. ok (integer IntKind.int16 (of_word (2 ^ 15) w))
  value_of_bytes int32 explicit bytes =
      of_slice (uint32_of bytes) >>= λ w. ok (integer IntKind.int32 (of_word (2 ^ 31) w))
  value_of_bytes uint32 explicit bytes =
      of_slice (uint32_of bytes) >>= λ w. ok (integer IntKind.uint32 (pos w))
  value_of_bytes float explicit bytes =
      of_slice (uint32_of bytes) >>= λ w. ok (Value.float32 (of_bits32 w))
  value_of_bytes float32 false bytes =
      of_slice (uint16_of bytes) >>= λ w. ok (integer IntKind.uint16 (pos w))
  value_of_bytes float32 true bytes =
      of_slice (uint32_of bytes) >>= λ w. ok (Value.float32 (of_bits32 w))
  value_of_bytes double explicit bytes =
      of_slice (uint64_of (pad_bytes bytes 8)) >>= λ w. ok (Value.float64 (of_bits64 w))
  value_of_bytes float64 false bytes =
      of_slice (uint16_of bytes) >>= λ w. ok (integer IntKind.uint16 (pos w))
  value_of_bytes float64 true bytes =
      of_slice (uint64_of (pad_bytes bytes 8)) >>= λ w. ok (Value.float64 (of_bits64 w))
  value_of_bytes int64 explicit bytes = of_slice (uint64_of (pad_bytes bytes 8)) >>= λ w.
      ok (integer IntKind.int64 (of_word (2 ^ 63) w))
  value_of_bytes uint64 explicit bytes =
      of_slice (uint64_of (pad_bytes bytes 8)) >>= λ w. ok (integer IntKind.uint64 (pos w))
  value_of_bytes bool explicit bytes =
      of_slice (uint16_of bytes) >>= λ w. ok (Value.bool (not (w == 0)))
  value_of_bytes _ explicit bytes =
      of_slice (uint16_of bytes) >>= λ w. ok (integer IntKind.uint16 (pos w))

  unfoldable pub decode_register_value : ModbusParam → List ℕ → Result (ValueOf fl)
  decode_register_value p payload = do
    require (not (ltb (length payload) (required_bytes p))) short_payload
    let bytes = apply_endian (normalize_endian p.endian) (take (required_bytes p) payload)
    value_of_bytes (register_type (to_lower p.data_type)) p.explicit bytes

  unfoldable pub decode_discrete_value : ModbusParam → List ℕ → Result (ValueOf fl)
  decode_discrete_value p payload = do
    require (not (length payload == 0)) empty_payload
    let index = pos_part p.bit
    require (ltb (index / 8) (length payload)) bit_range
    ok (Value.bool (get_or payload (index / 8) 0 / 2 ^ (index % 8) % 2 == 1))

  unfoldable pub decode_payload : ModbusParam → List ℕ → Result (ValueOf fl)
  unfolding payload_of
  decode_payload p frame = do
    payload ← payload_of frame
    if p.function_code == 1 || p.function_code == 2
        then decode_discrete_value p payload
        else if p.function_code == 3 || p.function_code == 4
        then decode_register_value p payload
        else err unsupported_function

  -- `readParamValueWithConn` once `io.ReadFull` has filled the buffer.
  unfoldable pub read_response : ModbusParam → List ℕ → Result (ValueOf fl)
  read_response p buffer = do require (verify_crc buffer) crc_mismatch; decode_payload p buffer
