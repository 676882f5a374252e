-- ===== src/Runtime/Modbus.antt =====
-- parseModbusPoints of internal/config/runtime.go.
pub mod Safe
pub mod Access
use multiple_protocol_contro.Common.{Bool, List, Option, Text, [], if◌then◌else◌, none, some}
use multiple_protocol_contro.Common.{to_upper, trim_space, ℕ}
use multiple_protocol_contro.Common.Int.{pos_part, ℤ}
use multiple_protocol_contro.Modbus.Registers.{ModbusParam}
use multiple_protocol_contro.Protocol.Names.{Protocol, bacnet, get_protocol, modbus_rtu, mqtt}
use multiple_protocol_contro.Protocol.Names.{opcua}
use multiple_protocol_contro.Protocol.Points.{JsonOf, ModbusPoint, is_empty_text, parse_modbus}
use multiple_protocol_contro.Runtime.Device.{DeviceConfig, PointInfo, Property, is_read_disabled}
use multiple_protocol_contro.Runtime.Device.{keep_valid, point_info, points_of}
use multiple_protocol_contro.Values.{Result, bad_number, of_option, ok, ◌>>=◌, ◌>>◌}
use multiple_protocol_contro.Values.Decimal.{parse_int}
use multiple_protocol_contro.Values.Hex.{parse_uint_dec_hex}

-- ModbusParam and ModbusCommand, in their whole.
pub record ModbusReadPoint : Type 0 where
  pub info : PointInfo
  pub function_code : ℤ
  pub address : ℕ
  pub device_addr : ℕ
  pub quantity : ℤ
  pub bit : ℤ
  pub read_disabled : Bool
  pub endian : Text

pub record ModbusWritePoint : Type 0 where
  pub write_info : PointInfo
  pub write_code : ℤ
  pub write_address : ℕ
  pub write_device_addr : ℕ
  pub write_quantity : ℤ
  pub write_endian : Text

-- What internal/collector/modbus.go reads of a read point. A negative code, which no `switch` of
-- it names, stands as 0, which none names either.
unfoldable pub param_of : ModbusReadPoint → ModbusParam
param_of p = record {
  identify = p.info.identify;
  data_type = p.info.data_type;
  explicit = p.info.explicit;
  function_code = pos_part p.function_code;
  address = p.address;
  quantity = p.quantity;
  bit = p.bit;
  read_disabled = p.read_disabled;
  endian = p.endian;
}

module _ {Raw : Type 0} (js : JsonOf Raw) (dev : DeviceConfig Raw) (slave_id : ℕ) where
  unfoldable pub read_point : Property Raw → ModbusPoint → Result ModbusReadPoint
  read_point prop pt = do
    fc ← of_option (parse_int pt.function_code) bad_number
    addr ← of_option (parse_uint_dec_hex pt.address) bad_number
    ok (record {
      info = point_info dev prop pt.data_type;
      function_code = fc;
      address = addr;
      device_addr = slave_id;
      quantity = pt.quantity;
      bit = pt.bit;
      read_disabled = is_read_disabled prop.access;
      endian = to_upper (trim_space pt.endian);
    })

  unfoldable pub write_point : Property Raw → ModbusPoint → Result ModbusWritePoint
  write_point prop pt = do
    fc ← of_option (parse_int pt.function_code) bad_number
    addr ← of_option (parse_uint_dec_hex pt.address) bad_number
    ok (record {
      write_info = point_info dev prop pt.data_type;
      write_code = fc;
      write_address = addr;
      write_device_addr = slave_id;
      write_quantity = pt.quantity;
      write_endian = to_upper (trim_space pt.endian);
    })

  unfoldable pub modbus_points :
      Property Raw → Result (List ModbusReadPoint × List ModbusWritePoint)
  modbus_points prop = do
    cfg ← parse_modbus js prop.protocol
    ok (keep_valid (read_point prop) cfg.read, keep_valid (write_point prop) cfg.write)

  -- Only the Modbus RTU package returns points of its own type; those of another are skipped.
  unfoldable pub modbus_points_by : Option Protocol → List ModbusReadPoint × List ModbusWritePoint
  modbus_points_by (some modbus_rtu) = points_of modbus_points dev.properties
  modbus_points_by (some bacnet) = ([], [])
  modbus_points_by (some opcua) = ([], [])
  modbus_points_by (some mqtt) = ([], [])
  modbus_points_by none = ([], [])

  unfoldable pub parse_modbus_points : List ModbusReadPoint × List ModbusWritePoint
  parse_modbus_points =
      if is_empty_text dev.device_protocol
      then ([], [])
      else modbus_points_by (get_protocol dev.device_protocol)
