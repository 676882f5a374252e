-- ===== src/Modbus/Encode.antt =====
-- internal/protocol/modbusRtu/encodeCommand.go: write commands as RTU frames.
pub mod Shape
use multiple_protocol_contro.Common.{Bool, List, Text, [], bit_or, get_or, if◌then◌else◌, length}
use multiple_protocol_contro.Common.{ltb, not, replicate, set, text_eq, to_lower, trim_space, ℕ}
use multiple_protocol_contro.Common.{◌%◌, ◌++◌, ◌+◌, ◌/◌, ◌==◌, ◌^◌, ◌∷◌}
use multiple_protocol_contro.Common.Int.{fits_signed, to_word, ℤ}
use multiple_protocol_contro.Modbus.Bytes.{put_uint16, put_uint32, put_uint64}
use multiple_protocol_contro.Modbus.Crc.{append_crc}
use multiple_protocol_contro.Modbus.Endian.{Endian, apply_endian, normalize_endian}
use multiple_protocol_contro.Modbus.Registers.{RegisterType, double, float, float32, float64}
use multiple_protocol_contro.Modbus.Registers.{int16, int32, int64, register_type, short, uint16}
use multiple_protocol_contro.Modbus.Registers.{uint32, uint64, ushort}
use multiple_protocol_contro.Values.{Floats, Result, ValueOf, ValuesOf, address_overflow, bools}
use multiple_protocol_contro.Values.{done, empty_payload, err, item, items, ok, out_of_range}
use multiple_protocol_contro.Values.{require, unsupported_function, unsupported_type}
use multiple_protocol_contro.Values.{wrong_length, ◌>>=◌, ◌>>◌}
use multiple_protocol_contro.Values.Coerce.{coerce_bool, coerce_exact_int64, coerce_exact_uint64}
use multiple_protocol_contro.Values.Coerce.{coerce_float64, coerce_int64, coerce_uint64}
use multiple_protocol_contro.Values.Coerce.{legacy_json_number_value}

pub record CommandMessage (V : Type 0) : Type 0 where
  pub device_address : ℕ
  pub function_code : ℕ
  pub address : ℕ
  pub data_type : Text
  pub explicit : Bool
  pub endian : Text
  pub value : V

-- `dt == ""` means `ushort`.
unfoldable pub command_type : Text → RegisterType
command_type data_type =
    let dt = to_lower (trim_space data_type) in
    if text_eq dt [] then RegisterType.ushort else register_type dt

-- `result[i/8] |= 1 << (i%8)` for each coil that is on; `i` counts the coils before `bs`.
unfoldable pub pack_from : ℕ → List Bool → List ℕ → List ℕ
pack_from i [] result = result
pack_from i (b ∷ bs) result =
    pack_from (i + 1) bs
      (if b then set result (i / 8) (bit_or (get_or result (i / 8) 0) (2 ^ (i % 8))) else result)

unfoldable pub pack_coils : List Bool → List ℕ
unfolding pack_from
pack_coils bs = pack_from 0 bs (replicate ((length bs + 7) / 8) 0)

-- The header of a write frame, `frame[0:4]`.
abbrev pub header : ℕ → ℕ → ℕ → List ℕ
header device function_code address =
    device % 256 ∷ function_code % 256 ∷ put_uint16 (address % 2 ^ 16)

module _ (fl : Floats) where
  open fl use {narrow, bits32, bits64}

  unfoldable pub int_bytes : ℕ → (ℕ → List ℕ) → Result ℤ → Result (List ℕ)
  int_bytes half put r = do
    n ← r
    require (fits_signed half n) out_of_range
    ok (put (to_word (half + half) n))

  unfoldable pub word_bytes : ℕ → (ℕ → List ℕ) → Result ℕ → Result (List ℕ)
  word_bytes bound put r = do n ← r; require (ltb n bound) out_of_range; ok (put n)

  -- The buffer of each case of `encodeRegisterValue`, before `applyEndian`.
  unfoldable pub explicit_bytes : RegisterType → ValueOf fl → Result (List ℕ)
  unfolding int_bytes word_bytes
  explicit_bytes short v = int_bytes (2 ^ 15) put_uint16 (coerce_int64 fl v)
  explicit_bytes int16 v = int_bytes (2 ^ 15) put_uint16 (coerce_exact_int64 fl v)
  explicit_bytes ushort v = word_bytes (2 ^ 16) put_uint16 (coerce_uint64 fl v)
  explicit_bytes uint16 v = word_bytes (2 ^ 16) put_uint16 (coerce_exact_uint64 fl v)
  explicit_bytes int32 v = int_bytes (2 ^ 31) put_uint32 (coerce_exact_int64 fl v)
  explicit_bytes uint32 v = word_bytes (2 ^ 32) put_uint32 (coerce_exact_uint64 fl v)
  explicit_bytes float v = coerce_float64 fl v >>= λ f. ok (put_uint32 (bits32 (narrow f)))
  explicit_bytes float32 v = coerce_float64 fl v >>= λ f. ok (put_uint32 (bits32 (narrow f)))
  explicit_bytes double v = coerce_float64 fl v >>= λ f. ok (put_uint64 (bits64 f))
  explicit_bytes float64 v = coerce_float64 fl v >>= λ f. ok (put_uint64 (bits64 f))
  explicit_bytes uint64 v = coerce_exact_uint64 fl v >>= λ n. ok (put_uint64 n)
  explicit_bytes int64 v = coerce_exact_int64 fl v >>= λ n. ok (put_uint64 (to_word (2 ^ 64) n))
  explicit_bytes _ v = err unsupported_type

  -- The same of `encodeRegisterValueLegacy`, whose value has passed `LegacyJSONNumberValue`.
  unfoldable pub legacy_bytes : RegisterType → ValueOf fl → Result (List ℕ)
  unfolding int_bytes word_bytes
  legacy_bytes short v = int_bytes (2 ^ 15) put_uint16 (coerce_int64 fl v)
  legacy_bytes int16 v = int_bytes (2 ^ 15) put_uint16 (coerce_int64 fl v)
  legacy_bytes ushort v = word_bytes (2 ^ 16) put_uint16 (coerce_uint64 fl v)
  legacy_bytes uint16 v = word_bytes (2 ^ 16) put_uint16 (coerce_uint64 fl v)
  legacy_bytes int32 v = int_bytes (2 ^ 31) put_uint32 (coerce_int64 fl v)
  legacy_bytes uint32 v = word_bytes (2 ^ 32) put_uint32 (coerce_uint64 fl v)
  legacy_bytes float v = coerce_float64 fl v >>= λ f. ok (put_uint32 (bits32 (narrow f)))
  legacy_bytes double v = coerce_float64 fl v >>= λ f. ok (put_uint64 (bits64 f))
  legacy_bytes uint64 v = coerce_uint64 fl v >>= λ n. ok (put_uint64 n)
  legacy_bytes int64 v = coerce_int64 fl v >>= λ n. ok (put_uint64 (to_word (2 ^ 64) n))
  legacy_bytes _ v = err unsupported_type

  unfoldable pub encode_register_value : ValueOf fl → Text → Endian → Bool → Result (List ℕ)
  encode_register_value v data_type endian explicit = do
    bytes ←
        if explicit
        then explicit_bytes (command_type data_type) v
        else legacy_bytes (command_type data_type) (legacy_json_number_value fl v)
    ok (apply_endian endian bytes)

  bools_of_items : ValuesOf fl → Result (List Bool)
  bools_of_items done = ok []
  bools_of_items (item v vs) = do b ← coerce_bool fl v; bs ← bools_of_items vs; ok (b ∷ bs)

  unfoldable pub normalize_bool_slice : ValueOf fl → Result (List Bool)
  unfolding bools_of_items
  normalize_bool_slice (bools bs) = ok bs
  normalize_bool_slice (items vs) = bools_of_items vs
  normalize_bool_slice _ = err unsupported_type

  -- The cases of the switch on the function code; `h` is the header.
  unfoldable pub write_register : CommandMessage (ValueOf fl) → List ℕ → Result (List ℕ)
  write_register m h = do
    bytes ← encode_register_value m.value m.data_type (normalize_endian m.endian) m.explicit
    require (length bytes == 2) wrong_length
    ok (append_crc (h ++ bytes))

  unfoldable pub write_coil : CommandMessage (ValueOf fl) → List ℕ → Result (List ℕ)
  write_coil m h = do
    b ← coerce_bool fl m.value
    ok (append_crc (h ++ put_uint16 (if b then 0xFF00 else 0)))

  unfoldable pub write_registers : CommandMessage (ValueOf fl) → List ℕ → Result (List ℕ)
  write_registers m h = do
    bytes ← encode_register_value m.value m.data_type (normalize_endian m.endian) m.explicit
    require (length bytes % 2 == 0) wrong_length
    ok (append_crc (h ++ (put_uint16 (length bytes / 2 % 2 ^ 16) ++ (length bytes % 256 ∷ bytes))))

  unfoldable pub write_coils : CommandMessage (ValueOf fl) → List ℕ → Result (List ℕ)
  write_coils m h = do
    bs ← normalize_bool_slice m.value
    require (not (length bs == 0)) empty_payload
    let bytes = pack_coils bs
    ok (append_crc (h ++ (put_uint16 (length bs % 2 ^ 16) ++ (length bytes % 256 ∷ bytes))))

  unfoldable pub build_modbus_frame : CommandMessage (ValueOf fl) → Result (List ℕ)
  unfolding write_register write_coil write_registers write_coils
  build_modbus_frame m =
      let h = header m.device_address m.function_code m.address in
      if ltb 0xFFFF m.address
      then err address_overflow
      else if m.function_code == 6
      then write_register m h
      else if m.function_code == 5
      then write_coil m h
      else if m.function_code == 16
      then write_registers m h
      else if m.function_code == 15
      then write_coils m h
      else err unsupported_function
