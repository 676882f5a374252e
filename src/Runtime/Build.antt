-- ===== src/Runtime/Build.antt =====
-- buildDeviceRuntime and BuildRuntimeConfig of internal/config/runtime.go.
pub mod Serials
pub mod Valid
use multiple_protocol_contro.Common.{Bool, List, Option, Text, [], false, if◌then◌else◌, none}
use multiple_protocol_contro.Common.{not, some, text_eq, trim_space, ℕ, ◌++◌, ◌==◌, ◌^◌, ◌||◌}
use multiple_protocol_contro.Common.{◌∷◌}
use multiple_protocol_contro.Common.Int.{to_word}
use multiple_protocol_contro.Protocol.Names.{is_bacnet_protocol, is_modbus_protocol}
use multiple_protocol_contro.Protocol.Names.{is_mqtt_protocol, is_opcua_protocol}
use multiple_protocol_contro.Protocol.Points.{JsonOf}
use multiple_protocol_contro.Runtime.Bacnet.{BacnetCommand, BacnetParam, parse_bacnet_points}
use multiple_protocol_contro.Runtime.Device.{DeviceConfig}
use multiple_protocol_contro.Runtime.Modbus.{ModbusReadPoint, ModbusWritePoint}
use multiple_protocol_contro.Runtime.Modbus.{parse_modbus_points}
use multiple_protocol_contro.Runtime.Mqtt.{MqttCommand, MqttParam, build_mqtt_broker}
use multiple_protocol_contro.Runtime.Mqtt.{parse_mqtt_points}
use multiple_protocol_contro.Runtime.Opcua.{OpcuaCommand, OpcuaParam, build_opcua_endpoint}
use multiple_protocol_contro.Runtime.Opcua.{parse_opcua_points}
use multiple_protocol_contro.Runtime.Params.{JsonValues, MqttParams, parse_bacnet_device_instance}
use multiple_protocol_contro.Runtime.Params.{parse_device_response_timeout, parse_mqtt_params}
use multiple_protocol_contro.Runtime.Params.{parse_opcua_security, parse_slave_id}
use multiple_protocol_contro.Values.{Floats, Result, err, no_device, ok, panic, require, ◌>>◌}

pub record DeviceRuntime (Raw : Type 0) : Type 0 where
  pub config : DeviceConfig Raw
  pub slave_id : ℕ
  pub gateway_serial : Text
  pub runtime_gateway_id : Text
  pub gateway_ip : Text
  pub gateway_port : ℕ
  pub response_timeout_ms : ℕ
  pub read_points : List ModbusReadPoint
  pub write_points : List ModbusWritePoint
  pub bacnet_device_instance : ℕ
  pub bacnet_read_points : List BacnetParam
  pub bacnet_write_points : List BacnetCommand
  pub opcua_endpoint : Text
  pub opcua_security : Text × Text
  pub opcua_read_points : List OpcuaParam
  pub opcua_write_points : List OpcuaCommand
  pub mqtt_broker : Text
  pub mqtt_params : MqttParams
  pub mqtt_read_points : List MqttParam
  pub mqtt_write_points : List MqttCommand

-- The values of variables that no branch has set.
abbrev pub no_mqtt_params : MqttParams
no_mqtt_params = record {
  client_id = [];
  mqtt_username = [];
  mqtt_password = [];
  qos = 0;
  keep_alive = 0;
  clean_session = false;
}

module _ {Raw : Type 0} where
  -- `uint16(dev.GatewayInfo.Port)`
  abbrev pub port_of : DeviceConfig Raw → ℕ
  port_of dev = to_word (2 ^ 16) dev.gateway_info.port

  abbrev pub gateway_serial_of : DeviceConfig Raw → Text
  gateway_serial_of dev =
      if text_eq dev.gateway_info.gateway_id []
      then dev.serial_number
      else dev.gateway_info.gateway_id

  unfoldable pub has_gateway : DeviceConfig Raw → Bool
  has_gateway dev =
      is_mqtt_protocol dev.device_protocol
      || not (text_eq (trim_space dev.gateway_info.ip) [] || port_of dev == 0)

module _ (fl : Floats) {Raw : Type 0} (js : JsonOf Raw) (vs : JsonValues fl Raw) where
  -- The branches set what they find of the device's own protocol, and leave the rest empty.
  unfoldable pub device_runtime : DeviceConfig Raw → DeviceRuntime Raw
  device_runtime dev =
      let is_modbus = is_modbus_protocol dev.device_protocol in
      let is_bacnet = is_bacnet_protocol dev.device_protocol in
      let is_opcua = is_opcua_protocol dev.device_protocol in
      let is_mqtt = is_mqtt_protocol dev.device_protocol in
      let slave = if is_modbus then parse_slave_id fl vs dev else 0 in
      let modbus = if is_modbus then parse_modbus_points js dev slave else ([], []) in
      let bacnet_found = if is_bacnet then parse_bacnet_points js dev else ([], []) in
      let opcua_found = if is_opcua then parse_opcua_points js dev else ([], []) in
      let mqtt_found = if is_mqtt then parse_mqtt_points js dev else ([], []) in
      record {
        config = dev;
        slave_id = slave;
        gateway_serial = gateway_serial_of dev;
        runtime_gateway_id = dev.gateway_info.gateway_id;
        gateway_ip = if is_mqtt then [] else trim_space dev.gateway_info.ip;
        gateway_port = if is_mqtt then 0 else port_of dev;
        response_timeout_ms = parse_device_response_timeout fl vs dev;
        read_points = modbus.0;
        write_points = modbus.1;
        bacnet_device_instance = if is_bacnet then parse_bacnet_device_instance fl vs dev else 0;
        bacnet_read_points = bacnet_found.0;
        bacnet_write_points = bacnet_found.1;
        opcua_endpoint = if is_opcua then build_opcua_endpoint dev else [];
        opcua_security = if is_opcua then parse_opcua_security fl vs dev.params else ([], []);
        opcua_read_points = opcua_found.0;
        opcua_write_points = opcua_found.1;
        mqtt_broker = if is_mqtt then build_mqtt_broker dev else [];
        mqtt_params = if is_mqtt then parse_mqtt_params fl vs dev else no_mqtt_params;
        mqtt_read_points = mqtt_found.0;
        mqtt_write_points = mqtt_found.1;
      }

  unfoldable pub build_device_runtime : DeviceConfig Raw → Result (DeviceRuntime Raw)
  build_device_runtime dev = require (has_gateway dev) no_device >> ok (device_runtime dev)

-- The maps of IotCfgType, from serial numbers; a key that is missing reads as the empty list.
pub record IotCfg (Raw : Type 0) : Type 0 where
  pub devices : List (DeviceRuntime Raw)
  pub device_by_serial : Text → Option (DeviceRuntime Raw)
  pub device_cmd_by_serial : Text → List ModbusWritePoint
  pub device_bacnet_by_serial : Text → List BacnetParam
  pub device_bacnet_cmd_by_serial : Text → List BacnetCommand
  pub device_opcua_cmd_by_serial : Text → List OpcuaCommand
  pub device_mqtt_cmd_by_serial : Text → List MqttCommand

-- `m[key] = append(m[key], more...)`
unfoldable pub append_at {ℓ} : {A : Type ℓ} → Text → List A → (Text → List A) → Text → List A
append_at key more m k = if text_eq k key then m k ++ more else m k

-- `m[key] = value`
unfoldable pub put_at {ℓ} : {A : Type ℓ} → Text → A → (Text → Option A) → Text → Option A
put_at key value m k = if text_eq k key then some value else m k

module _ {Raw : Type 0} where
  abbrev pub empty_cfg : IotCfg Raw
  empty_cfg = record {
    devices = [];
    device_by_serial = λ k. none;
    device_cmd_by_serial = λ k. [];
    device_bacnet_by_serial = λ k. [];
    device_bacnet_cmd_by_serial = λ k. [];
    device_opcua_cmd_by_serial = λ k. [];
    device_mqtt_cmd_by_serial = λ k. [];
  }

  -- The body of the loop for a device that is valid. Appending nothing changes nothing.
  unfoldable pub add_device : DeviceRuntime Raw → IotCfg Raw → IotCfg Raw
  add_device rt cfg =
      let serial = rt.config.serial_number in
      record {
        devices = cfg.devices ++ (rt ∷ []);
        device_by_serial = put_at serial rt cfg.device_by_serial;
        device_cmd_by_serial = append_at serial rt.write_points cfg.device_cmd_by_serial;
        device_bacnet_by_serial =
            append_at serial rt.bacnet_read_points cfg.device_bacnet_by_serial;
        device_bacnet_cmd_by_serial =
            append_at serial rt.bacnet_write_points cfg.device_bacnet_cmd_by_serial;
        device_opcua_cmd_by_serial =
            append_at serial rt.opcua_write_points cfg.device_opcua_cmd_by_serial;
        device_mqtt_cmd_by_serial =
            append_at serial rt.mqtt_write_points cfg.device_mqtt_cmd_by_serial;
      }

  unfoldable pub add_built : Result (DeviceRuntime Raw) → IotCfg Raw → IotCfg Raw
  add_built (ok rt) cfg = add_device rt cfg
  add_built (err e) cfg = cfg
  add_built panic cfg = cfg

module _ (fl : Floats) {Raw : Type 0} (js : JsonOf Raw) (vs : JsonValues fl Raw) where
  -- The loop over the devices, which goes on from `cfg`.
  unfoldable pub build_from : List (DeviceConfig Raw) → IotCfg Raw → IotCfg Raw
  build_from [] cfg = cfg
  build_from (dev ∷ devs) cfg = build_from devs (add_built (build_device_runtime fl js vs dev) cfg)

  unfoldable pub build_runtime_config : List (DeviceConfig Raw) → IotCfg Raw
  build_runtime_config devs = build_from devs empty_cfg
