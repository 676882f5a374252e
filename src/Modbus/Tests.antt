-- ===== src/Modbus/Tests.antt =====
-- Concrete runs of the Modbus parts, and the theorems at concrete inputs.
use multiple_protocol_contro.Common.{All, List, [], arith, codes, false, inl, lower, refl, switch}
use multiple_protocol_contro.Common.{text_eq, to_lower, trim_space, true, upper, ℕ, ◌%◌, ◌++◌}
use multiple_protocol_contro.Common.{◌/◌, ◌^◌, ◌∷◌, ◌≡◌, ◌≢◌, ◌≤◌}
use multiple_protocol_contro.Common.Int.{negsuc, pos, to_word}
use multiple_protocol_contro.Modbus.Ack.{ModbusCommand, check_ack}
use multiple_protocol_contro.Modbus.Ack.Echo.{check_ack-echo, echo_of}
use multiple_protocol_contro.Modbus.Batch.{BatchQuery, add_param, add_to_group, batch_groups}
use multiple_protocol_contro.Modbus.Batch.{batch_loop, build, build_batch_queries, can_add, flush}
use multiple_protocol_contro.Modbus.Batch.{gap_of, group_params, insert_by_address, is_batched}
use multiple_protocol_contro.Modbus.Batch.{max_of, new_batch_builder, param_width}
use multiple_protocol_contro.Modbus.Batch.{sort_by_address, span_end, span_quantity}
use multiple_protocol_contro.Modbus.Batch.Builder.{Covers, IsAddressable}
use multiple_protocol_contro.Modbus.Batch.Complete.{all_params, build_batch_queries-perm}
use multiple_protocol_contro.Modbus.Batch.Cover.{CoversOwn, build_batch_queries_covers}
use multiple_protocol_contro.Modbus.Bytes.{put_uint16, put_uint32}
use multiple_protocol_contro.Modbus.Collect.{batch_response}
use multiple_protocol_contro.Modbus.Collect.Agree.{batch_response-agree, single_values}
use multiple_protocol_contro.Modbus.Collect.Device.{respond_registers}
use multiple_protocol_contro.Modbus.Crc.{append_crc, compute_crc, verify_crc}
use multiple_protocol_contro.Modbus.Crc.Detect.{verify_crc_corrupted}
use multiple_protocol_contro.Modbus.Decode.{decode_register_value}
use multiple_protocol_contro.Modbus.Decode.Panic.{decode-ne-panic}
use multiple_protocol_contro.Modbus.Decode.RoundTrip.{decode-encode, read_back}
use multiple_protocol_contro.Modbus.Encode.{CommandMessage, build_modbus_frame, command_type}
use multiple_protocol_contro.Modbus.Encode.{encode_register_value, explicit_bytes, int_bytes}
use multiple_protocol_contro.Modbus.Encode.{word_bytes}
use multiple_protocol_contro.Modbus.Endian.{apply_endian, normalize_endian}
use multiple_protocol_contro.Modbus.Registers.{ModbusParam, default_quantity, quantity_for_param}
use multiple_protocol_contro.Modbus.Registers.{quantity_of, register_type}
use multiple_protocol_contro.Values.{IntKind, ValueOf, err, integer, ok, panic, quantity_mismatch}
use multiple_protocol_contro.Values.Coerce.{coerce_exact_int64, coerce_exact_uint64}
use multiple_protocol_contro.Values.Samples.{two_floats, two_floats_laws}
use mathlib.Core.List.{Perm}

abbrev request : List ℕ
request = 1 ∷ 3 ∷ 0 ∷ 0 ∷ 0 ∷ 10 ∷ []

-- A read request of the protocol's documentation.
crc_of_request : append_crc request ≡ 1 ∷ 3 ∷ 0 ∷ 0 ∷ 0 ∷ 10 ∷ 0xC5 ∷ 0xCD ∷ []
unfolding append_crc compute_crc
crc_of_request = refl

abbrev device_id : List ℕ
device_id = 1 ∷ 3 ∷ []

abbrev address_part : List ℕ
address_part = 0 ∷ 0 ∷ 10 ∷ []

verify_crc_corrupted_example :
    let c = compute_crc (device_id ++ (0 ∷ address_part)) in
    verify_crc ((device_id ++ (64 ∷ address_part)) ++ (c % 256 ∷ c / 2 ^ 8 % 256 ∷ [])) ≡ false
verify_crc_corrupted_example =
    verify_crc_corrupted device_id address_part 0 64 (omega arith) (omega arith) (omega arith)
      (omega arith) (omega arith)

-- A temperature of 32 bits at register 10, low word first.
abbrev temperature : ModbusParam
temperature = record {
  identify = codes "temperature";
  data_type = codes "int32";
  explicit = true;
  function_code = 3;
  address = 10;
  quantity = pos 0;
  bit = pos 0;
  read_disabled = false;
  endian = codes "CDAB";
}

abbrev minus_two : ValueOf two_floats
minus_two = integer IntKind.int64 (negsuc 1)

abbrev encoded : List ℕ
encoded = 255 ∷ 254 ∷ 255 ∷ 255 ∷ []

temperature_encoded :
    encode_register_value two_floats minus_two
      (codes "int32")
      (normalize_endian (codes "CDAB"))
      true
    ≡ ok encoded
unfolding encode_register_value explicit_bytes int_bytes coerce_exact_int64 normalize_endian text_eq
    trim_space switch lower upper command_type register_type apply_endian put_uint32 to_word
temperature_encoded = refl

same_name : command_type (codes "int32") ≡ register_type (to_lower (codes "int32"))
unfolding command_type register_type text_eq trim_space switch lower
same_name = refl

decode-encode_example :
    decode_register_value two_floats temperature encoded
    ≡ read_back two_floats (register_type (to_lower (codes "int32"))) minus_two
decode-encode_example =
    decode-encode two_floats two_floats_laws temperature minus_two encoded (omega arith) refl refl
      same_name temperature_encoded

two_registers :
    default_quantity (register_type (to_lower (codes "int32"))) true
    ≤ quantity_for_param temperature
unfolding quantity_for_param quantity_of
two_registers = omega arith

decode-ne-panic_example : decode_register_value two_floats temperature encoded ≢ panic
decode-ne-panic_example = decode-ne-panic two_floats temperature encoded two_registers

-- Setting the register at 10 to 7.
abbrev command : CommandMessage (ValueOf two_floats)
command = record {
  device_address = 1;
  function_code = 6;
  address = 10;
  data_type = codes "uint16";
  explicit = true;
  endian = codes "ABCD";
  value = integer IntKind.int (pos 7);
}

abbrev coil_write_point : ModbusCommand
coil_write_point = record { function_code = 6; address = 10; quantity = pos 0 }

abbrev write_frame : List ℕ
write_frame = 1 ∷ 6 ∷ 0 ∷ 10 ∷ 0 ∷ 7 ∷ 232 ∷ 10 ∷ []

command_encoded : build_modbus_frame two_floats command ≡ ok write_frame
unfolding build_modbus_frame encode_register_value explicit_bytes word_bytes coerce_exact_uint64
    normalize_endian text_eq trim_space switch lower upper command_type register_type apply_endian
    put_uint16 append_crc compute_crc
command_encoded = refl

-- An int32 takes two registers of a point whose quantity is four: its echo is refused.
abbrev wide_command : CommandMessage (ValueOf two_floats)
wide_command = record {
  device_address = 1;
  function_code = 16;
  address = 10;
  data_type = codes "int32";
  explicit = true;
  endian = codes "ABCD";
  value = integer IntKind.int (pos 7);
}

abbrev wide_write_point : ℕ → ModbusCommand
wide_write_point n = record { function_code = 16; address = 10; quantity = pos n }

abbrev wide_frame : List ℕ
wide_frame = append_crc (1 ∷ 16 ∷ 0 ∷ 10 ∷ 0 ∷ 2 ∷ 4 ∷ 0 ∷ 0 ∷ 0 ∷ 7 ∷ [])

wide_command_encoded : build_modbus_frame two_floats wide_command ≡ ok wide_frame
unfolding build_modbus_frame encode_register_value explicit_bytes int_bytes coerce_exact_int64
    normalize_endian text_eq trim_space switch lower upper command_type register_type apply_endian
    put_uint16 put_uint32 to_word
wide_command_encoded = refl

check_ack-echo_example :
    check_ack 1 (wide_write_point 4) (echo_of wide_frame) ≡ err quantity_mismatch
check_ack-echo_example =
    unfold append_crc in
    check_ack-echo two_floats wide_command (wide_write_point 4) wide_frame wide_command_encoded refl
      refl

echo_accepted : check_ack 1 (wide_write_point 2) (echo_of wide_frame) ≡ ok tt
echo_accepted =
    unfold append_crc in
    check_ack-echo two_floats wide_command (wide_write_point 2) wide_frame wide_command_encoded refl
      refl

-- Two holding registers apart by one, and a third too far for one request.
abbrev point_at : ℕ → ModbusParam
point_at address = record {
  identify = codes "p";
  data_type = codes "uint16";
  explicit = true;
  function_code = 3;
  address = address;
  quantity = pos 0;
  bit = pos 0;
  read_disabled = false;
  endian = [];
}

abbrev three_points : List ModbusParam
three_points = point_at 40 ∷ point_at 2 ∷ point_at 0 ∷ []

abbrev spans_of : List BatchQuery → List (ℕ × ℕ)
spans_of [] = []
spans_of (q ∷ qs) = (q.start_addr, q.quantity) ∷ spans_of qs

two_requests : spans_of (build_batch_queries three_points) ≡ (0, 3) ∷ (40, 1) ∷ []
unfolding build_batch_queries batch_groups group_params add_to_group sort_by_address
    insert_by_address batch_loop flush build can_add add_param new_batch_builder span_quantity
    max_of span_end gap_of param_width quantity_for_param quantity_of default_quantity register_type
    switch text_eq lower
two_requests = refl

three-IsAddressable : All (λ p. is_batched p ≡ true → IsAddressable p) three_points
unfolding param_width quantity_for_param quantity_of default_quantity register_type switch text_eq
    lower
three-IsAddressable = (λ e. omega arith, (λ e. omega arith, (λ e. omega arith, tt)))

-- Two coils at the ends of the address space: the span is 65536 coils, of which a uint16 keeps 0.
abbrev coil_at : ℕ → ModbusParam
coil_at address = record {
  identify = codes "c";
  data_type = codes "bool";
  explicit = true;
  function_code = 1;
  address = address;
  quantity = pos 1;
  bit = pos 0;
  read_disabled = false;
  endian = [];
}

whole_range : spans_of (build_batch_queries (coil_at 0 ∷ coil_at 65535 ∷ [])) ≡ (0, 0) ∷ []
unfolding build_batch_queries batch_groups group_params add_to_group sort_by_address
    insert_by_address batch_loop flush build can_add add_param new_batch_builder span_quantity
    max_of span_end gap_of param_width quantity_for_param quantity_of default_quantity register_type
    switch text_eq lower
whole_range = refl

build_batch_queries_covers_example : All CoversOwn (build_batch_queries three_points)
build_batch_queries_covers_example = build_batch_queries_covers three_points three-IsAddressable

build_batch_queries-perm_example : Perm (all_params (build_batch_queries three_points)) three_points
build_batch_queries-perm_example = build_batch_queries-perm three_points

-- The first of the two requests, and a device whose registers hold their own addresses.
abbrev first_request : BatchQuery
first_request = record {
  function_code = 3;
  start_addr = 0;
  quantity = 3;
  params = point_at 0 ∷ point_at 2 ∷ [];
}

first_request-Covers : Covers 3 first_request
unfolding param_width quantity_for_param quantity_of default_quantity register_type switch text_eq
    lower
first_request-Covers = record {
  code = refl;
  spans = (
    record { from = omega arith; upto = omega arith; code = refl },
    (record { from = omega arith; upto = omega arith; code = refl }, tt),
  );
  nonempty = omega arith;
  capped = inl (omega arith);
}

batch_response-agree_example :
    batch_response two_floats first_request (respond_registers 1 3 (λ a. a) 0 3)
    ≡ single_values two_floats (λ a. a) 1 (point_at 0 ∷ point_at 2 ∷ [])
batch_response-agree_example =
    batch_response-agree two_floats (λ a. a) 1 first_request (inl refl) (omega arith) (omega arith)
      first_request-Covers
