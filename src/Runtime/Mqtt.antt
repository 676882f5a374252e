-- ===== src/Runtime/Mqtt.antt =====
-- parseMqttPoints of internal/config/runtime.go.
use multiple_protocol_contro.Common.{Bool, List, Option, Text, [], codes, drop, if◌then◌else◌}
use multiple_protocol_contro.Common.{length, map, none, some, suc, text_eq, trim_space, zero, ℕ}
use multiple_protocol_contro.Common.{◌++◌, ◌∷◌}
use multiple_protocol_contro.Common.Int.{pos}
use multiple_protocol_contro.Protocol.Names.{Protocol, bacnet, get_protocol, modbus_rtu, mqtt}
use multiple_protocol_contro.Protocol.Names.{opcua}
use multiple_protocol_contro.Protocol.Points.{JsonOf, MqttTopicConfig, is_empty_text, parse_mqtt}
use multiple_protocol_contro.Runtime.Device.{DeviceConfig, PointInfo, Property, is_read_disabled}
use multiple_protocol_contro.Runtime.Device.{is_zero_int, point_info, points_of}
use multiple_protocol_contro.Values.{Result, ok, ◌>>=◌}
use multiple_protocol_contro.Values.Decimal.Print.{print_ℤ}
use multiple_protocol_contro.Values.Hex.{has_prefix}

pub record MqttParam : Type 0 where
  pub info : PointInfo
  pub subscribe_topic : Text
  pub param_path : Text
  pub param_qos : ℕ
  pub read_disabled : Bool

pub record MqttCommand : Type 0 where
  pub command_info : PointInfo
  pub publish_topic : Text
  pub command_path : Text
  pub command_qos : ℕ

-- strings.ReplaceAll of a text that is not empty; the fuel is the number of bytes of `s`.
replace_upto : ℕ → Text → Text → Text → Text
replace_upto zero old new s = []
replace_upto (suc n) old new [] = []
replace_upto (suc n) old new (c ∷ s) =
    let behind = replace_upto n old new (drop (length old) (c ∷ s)) in
    let later = replace_upto n old new s in
    if has_prefix old (c ∷ s) then new ++ behind else c ∷ later

unfoldable pub replace_all : Text → Text → Text → Text
unfolding replace_upto
replace_all old new s = replace_upto (length s) old new s

unfoldable pub replace_topic_vars : Text → Text → Text → Text
replace_topic_vars topic serial device_id =
    replace_all (codes "{deviceId}") device_id (replace_all (codes "{serial}") serial topic)

abbrev pub path_or : Text → Text → Text
path_or path key = let trimmed = trim_space path in if text_eq trimmed [] then key else trimmed

module _ {Raw : Type 0} (js : JsonOf Raw) (dev : DeviceConfig Raw) where
  unfoldable pub mqtt_param : Property Raw → MqttTopicConfig → MqttParam
  mqtt_param prop topic = record {
    info = point_info dev prop topic.topic_data_type;
    subscribe_topic = replace_topic_vars topic.topic dev.serial_number dev.device_id;
    param_path = path_or topic.path prop.key;
    param_qos = topic.topic_qos;
    read_disabled = is_read_disabled prop.access;
  }

  unfoldable pub mqtt_command : Property Raw → MqttTopicConfig → MqttCommand
  mqtt_command prop topic = record {
    command_info = point_info dev prop topic.topic_data_type;
    publish_topic = replace_topic_vars topic.topic dev.serial_number dev.device_id;
    command_path = path_or topic.path prop.key;
    command_qos = topic.topic_qos;
  }

  unfoldable pub mqtt_points : Property Raw → Result (List MqttParam × List MqttCommand)
  mqtt_points prop = do
    cfg ← parse_mqtt js prop.protocol
    ok (map (mqtt_param prop) cfg.subscribe, map (mqtt_command prop) cfg.publish)

  unfoldable pub mqtt_points_by : Option Protocol → List MqttParam × List MqttCommand
  mqtt_points_by (some modbus_rtu) = ([], [])
  mqtt_points_by (some bacnet) = ([], [])
  mqtt_points_by (some opcua) = ([], [])
  mqtt_points_by (some mqtt) = points_of mqtt_points dev.properties
  mqtt_points_by none = ([], [])

  unfoldable pub parse_mqtt_points : List MqttParam × List MqttCommand
  parse_mqtt_points =
      if is_empty_text dev.device_protocol
      then ([], [])
      else mqtt_points_by (get_protocol dev.device_protocol)

-- buildMqttBroker
unfoldable pub build_mqtt_broker : {Raw : Type 0} → DeviceConfig Raw → Text
build_mqtt_broker dev =
    let ip = trim_space dev.gateway_info.ip in
    let host = if text_eq ip [] then codes "localhost" else ip in
    let port = if is_zero_int dev.gateway_info.port then pos 1883 else dev.gateway_info.port in
    codes "tcp://" ++ (host ++ (b':' ∷ print_ℤ port))
