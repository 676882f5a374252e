-- ===== src/Runtime/Tests.antt =====
-- A device with one Modbus point of each kind.
use multiple_protocol_contro.Common.{In, Text, [], arith, codes, false, inl, lower, none, refl}
use multiple_protocol_contro.Common.{some, switch, sym, text_eq, trim_space, true, upper, ◌∷◌}
use multiple_protocol_contro.Common.{◌≡◌, ◌≢◌}
use multiple_protocol_contro.Common.Int.{pos, to_word}
use multiple_protocol_contro.Modbus.Decode.{decode_register_value}
use multiple_protocol_contro.Protocol.DataTypes.{canonical, find_key, has_key}
use multiple_protocol_contro.Protocol.DataTypes.{supports_modbus_read}
use multiple_protocol_contro.Protocol.Names.{get_protocol, is_modbus_protocol, is_mqtt_protocol}
use multiple_protocol_contro.Protocol.Names.{normalize_name, register_protocol}
use multiple_protocol_contro.Protocol.Points.{JsonOf, ModbusPoint, check_modbus_point}
use multiple_protocol_contro.Protocol.Points.{is_too_small, normalize_all}
use multiple_protocol_contro.Protocol.Points.{normalize_modbus_data_type, parse_modbus}
use multiple_protocol_contro.Protocol.Points.{parse_protocol, required_register_count}
use multiple_protocol_contro.Protocol.Points.{supports_modbus, validate_modbus_points}
use multiple_protocol_contro.Runtime.Bacnet.{remove_byte}
use multiple_protocol_contro.Runtime.Build.{DeviceRuntime, build_device_runtime}
use multiple_protocol_contro.Runtime.Build.{build_runtime_config, device_runtime, empty_cfg}
use multiple_protocol_contro.Runtime.Build.{has_gateway}
use multiple_protocol_contro.Runtime.Build.Serials.{Holds, build_runtime_config-Holds, built}
use multiple_protocol_contro.Runtime.Build.Valid.{Usable, build_device_runtime-Usable}
use multiple_protocol_contro.Runtime.Device.{DeviceConfig, Property, add_points, add_valid}
use multiple_protocol_contro.Runtime.Device.{effective_data_type, is_read_disabled}
use multiple_protocol_contro.Runtime.Device.{is_write_enabled, keep_valid, point_info, points_of}
use multiple_protocol_contro.Runtime.Modbus.{ModbusReadPoint, ModbusWritePoint, modbus_points}
use multiple_protocol_contro.Runtime.Modbus.{modbus_points_by, param_of, parse_modbus_points}
use multiple_protocol_contro.Runtime.Modbus.{read_point, write_point}
use multiple_protocol_contro.Runtime.Modbus.Access.{Writable, other_modbus_names-points}
use multiple_protocol_contro.Runtime.Modbus.Access.{write_points-Writable}
use multiple_protocol_contro.Runtime.Modbus.Safe.{read_points-ne-panic}
use multiple_protocol_contro.Runtime.Params.{JsonValues, decode_param, device_param_uint64}
use multiple_protocol_contro.Runtime.Params.{device_param_value, normalize_device_param_key}
use multiple_protocol_contro.Runtime.Params.{param_with_key, parse_slave_id, uint64_of_raw}
use multiple_protocol_contro.Values.{bad_number, err, ok, panic}
use multiple_protocol_contro.Values.Decimal.{parse_int, parse_uint}
use multiple_protocol_contro.Values.Hex.{is_hex_string, parse_uint_dec_hex, trim_last}
use multiple_protocol_contro.Values.Hex.{trim_prefix}
use multiple_protocol_contro.Values.Samples.{two_floats}
use mathlib.Core.Path.{subst}

abbrev level_read : ModbusPoint
level_read = record {
  endian = codes "abcd";
  function_code = codes "03";
  address = codes "0x10";
  quantity = pos 2;
  bit = pos 0;
  data_type = codes " DWord ";
}

abbrev level_write : ModbusPoint
level_write = record {
  endian = codes "";
  function_code = codes "06";
  address = codes "17";
  quantity = pos 0;
  bit = pos 0;
  data_type = codes "";
}

-- The raw JSON of a property is its type name, and all have the two points.
abbrev sample_json : JsonOf Text
sample_json = record {
  type_of = λ raw. some raw;
  modbus_of = λ raw. some (record { read = level_read ∷ []; write = level_write ∷ [] });
  bacnet_of = λ raw. none;
  mqtt_of = λ raw. none;
  opcua_of = λ raw. none;
}

abbrev sample_values : JsonValues two_floats Text
sample_values = record {
  has_no_bytes = λ raw. text_eq raw [];
  as_string = λ raw. some raw;
  as_any = λ raw. none;
  sprint_any = λ v. [];
}

abbrev level : Property Text
level = record {
  id = codes "p1";
  type = codes "int";
  key = codes "level";
  name = codes "Level";
  access = codes "11";
  unit = codes "mm";
  protocol = codes "modbus_rtu";
}

abbrev tank_with : Text → DeviceConfig Text
tank_with name = record {
  device_id = codes "d1";
  gateway_info = record { gateway_id = codes "g1"; ip = codes " 10.0.0.1 "; port = pos 502 };
  serial_number = codes "s1";
  device_protocol = name;
  device_type = pos 0;
  acq_freq = pos 1000;
  username = [];
  password = [];
  properties = level ∷ [];
  params = record { param_key = codes "slave_id"; value = codes "0x0A" } ∷ [];
}

abbrev tank : DeviceConfig Text
tank = tank_with (codes "modbus_rtu")

abbrev tank_runtime : DeviceRuntime Text
tank_runtime = device_runtime two_floats sample_json sample_values tank

tank_built : build_device_runtime two_floats sample_json sample_values tank ≡ ok tank_runtime
unfolding build_device_runtime has_gateway is_mqtt_protocol normalize_name trim_space upper text_eq
    to_word
tank_built = refl

-- The points that are read of the configuration.
abbrev tank_read : ModbusReadPoint
tank_read = record {
  info = record {
    property_id = codes "p1";
    owner_id = codes "d1";
    owner_serial = codes "s1";
    identify = codes "level";
    property_name = codes "Level";
    property_type = codes "int";
    explicit = true;
    data_type = codes "uint32";
    property_unit = codes "mm";
  };
  function_code = pos 3;
  address = 16;
  device_addr = 10;
  quantity = pos 2;
  bit = pos 0;
  read_disabled = false;
  endian = codes "ABCD";
}

tank_reads : tank_runtime.read_points ≡ tank_read ∷ []
unfolding device_runtime is_modbus_protocol normalize_name trim_space upper lower text_eq switch
    parse_slave_id parse_modbus_points modbus_points_by get_protocol register_protocol points_of
    add_points modbus_points parse_modbus parse_protocol validate_modbus_points normalize_all
    normalize_modbus_data_type check_modbus_point canonical find_key parse_int parse_uint
    parse_uint_dec_hex is_hex_string trim_prefix trim_last required_register_count is_too_small
    supports_modbus supports_modbus_read has_key keep_valid add_valid read_point write_point
    point_info effective_data_type is_read_disabled is_write_enabled device_param_uint64
    device_param_value param_with_key uint64_of_raw decode_param normalize_device_param_key
    remove_byte
tank_reads = refl

abbrev tank_write : ModbusWritePoint
tank_write = record {
  write_info = record {
    property_id = codes "p1";
    owner_id = codes "d1";
    owner_serial = codes "s1";
    identify = codes "level";
    property_name = codes "Level";
    property_type = codes "int";
    explicit = false;
    data_type = codes "int";
    property_unit = codes "mm";
  };
  write_code = pos 6;
  write_address = 17;
  write_device_addr = 10;
  write_quantity = pos 0;
  write_endian = [];
}

tank_writes : tank_runtime.write_points ≡ tank_write ∷ []
unfolding device_runtime is_modbus_protocol normalize_name trim_space upper lower text_eq switch
    parse_slave_id parse_modbus_points modbus_points_by get_protocol register_protocol points_of
    add_points modbus_points parse_modbus parse_protocol validate_modbus_points normalize_all
    normalize_modbus_data_type check_modbus_point canonical find_key parse_int parse_uint
    parse_uint_dec_hex is_hex_string trim_prefix trim_last required_register_count is_too_small
    supports_modbus supports_modbus_read has_key keep_valid add_valid read_point write_point
    point_info effective_data_type is_read_disabled is_write_enabled device_param_uint64
    device_param_value param_with_key uint64_of_raw decode_param normalize_device_param_key
    remove_byte
tank_writes = refl

read_points-ne-panic_example :
    decode_register_value two_floats (param_of tank_read) (0 ∷ 1 ∷ []) ≢ panic
read_points-ne-panic_example =
    read_points-ne-panic two_floats sample_json sample_values tank tank_runtime tank_read
      (0 ∷ 1 ∷ []) tank_built (subst (λ l. In tank_read l) (sym tank_reads) (inl refl)) refl
      (omega arith)

write_points-Writable_example : Writable tank tank_write
write_points-Writable_example =
    write_points-Writable two_floats sample_json sample_values tank tank_runtime tank_write
      tank_built (subst (λ l. In tank_write l) (sym tank_writes) (inl refl))

build_device_runtime-Usable_example : Usable tank_runtime
build_device_runtime-Usable_example =
    build_device_runtime-Usable two_floats sample_json sample_values tank tank_runtime tank_built

-- The same device under the name of Modbus TCP.
abbrev tcp_tank : DeviceConfig Text
tcp_tank = tank_with (codes "ModbusTCP")

abbrev tcp_runtime : DeviceRuntime Text
tcp_runtime = device_runtime two_floats sample_json sample_values tcp_tank

tcp_built : build_device_runtime two_floats sample_json sample_values tcp_tank ≡ ok tcp_runtime
unfolding build_device_runtime has_gateway is_mqtt_protocol normalize_name trim_space upper text_eq
    to_word
tcp_built = refl

other_modbus_names-points_example : (tcp_runtime.read_points ≡ []) × (tcp_runtime.write_points ≡ [])
other_modbus_names-points_example =
    other_modbus_names-points two_floats sample_json sample_values tcp_tank tcp_runtime tcp_built
      (unfold is_modbus_protocol switch normalize_name trim_space upper text_eq in refl)
      (unfold normalize_name trim_space upper in λ e. cc)

build_runtime_config-Holds_example :
    Holds empty_cfg
      (build_runtime_config two_floats sample_json sample_values (tank ∷ tcp_tank ∷ []))
      (built two_floats sample_json sample_values (tank ∷ tcp_tank ∷ []))
      (codes "s1")
build_runtime_config-Holds_example =
    build_runtime_config-Holds two_floats sample_json sample_values (tank ∷ tcp_tank ∷ [])
      (codes "s1")

-- A function code with a blank passes the check, and is then refused.
abbrev blank_code : ModbusPoint
blank_code = record level_read { function_code = codes " 3" }

blank_code_checked :
    normalize_modbus_data_type true blank_code
    ≡ ok (record blank_code { data_type = codes "uint32" })
unfolding normalize_modbus_data_type check_modbus_point canonical find_key trim_space lower text_eq
    parse_int parse_uint required_register_count is_too_small supports_modbus supports_modbus_read
    has_key switch
blank_code_checked = refl

blank_code_refused :
    read_point sample_json tank 1 level (record blank_code { data_type = codes "uint32" })
    ≡ err bad_number
unfolding read_point parse_int
blank_code_refused = refl
