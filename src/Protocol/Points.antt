-- ===== src/Protocol/Points.antt =====
-- The points of a property and the check of their data types: internal/protocol/modbusRtu/modbusRtu.go,
-- internal/protocol/bacnet/bacnet.go, internal/protocol/mqtt/mqtt.go and internal/protocol/opcua/opcua.go.
pub mod Checked
use multiple_protocol_contro.Common.{Bool, List, Option, Text, [], codes, false, if◌then◌else◌}
use multiple_protocol_contro.Common.{ltb, not, suc, switch, text_eq, to_upper, trim_space, true}
use multiple_protocol_contro.Common.{zero, ℕ, ◌∷◌}
use multiple_protocol_contro.Common.Int.{negsuc, pos, ℤ}
use multiple_protocol_contro.Protocol.DataTypes.{canonical, supports_bacnet, supports_modbus_read}
use multiple_protocol_contro.Protocol.DataTypes.{supports_modbus_write, supports_mqtt}
use multiple_protocol_contro.Protocol.DataTypes.{supports_opcua}
use multiple_protocol_contro.Values.{Result, bad_number, bad_text, of_option, ok, require}
use multiple_protocol_contro.Values.{unsupported_type, wrong_length, ◌>>=◌, ◌>>◌}
use multiple_protocol_contro.Values.Decimal.{parse_int}

pub record ModbusPoint : Type 0 where
  pub endian : Text
  pub function_code : Text
  pub address : Text
  pub quantity : ℤ
  pub bit : ℤ
  pub data_type : Text

pub record ModbusProtocol : Type 0 where
  pub read : List ModbusPoint
  pub write : List ModbusPoint

pub record BacnetObject : Type 0 where
  pub object_type : Text
  pub instance_number : ℕ
  pub object_property : Text
  pub object_data_type : Text

pub record BacnetObjects : Type 0 where
  pub read_objects : List BacnetObject
  pub write_objects : List BacnetObject

pub record MqttTopicConfig : Type 0 where
  pub topic : Text
  pub path : Text
  pub topic_qos : ℕ
  pub topic_data_type : Text

pub record MqttTopics : Type 0 where
  pub subscribe : List MqttTopicConfig
  pub publish : List MqttTopicConfig

pub record OpcuaNode : Type 0 where
  pub node_id : Text
  pub node_data_type : Text

pub record OpcuaNodes : Type 0 where
  pub read_nodes : List OpcuaNode
  pub write_nodes : List OpcuaNode

abbrev pub is_empty_text : Text → Bool
is_empty_text s = text_eq (trim_space s) []

unfoldable pub required_register_count : Text → ℕ
required_register_count data_type =
    switch
      ((codes "int32", 2)
        ∷ (codes "uint32", 2)
        ∷ (codes "float32", 2)
        ∷ (codes "int64", 4)
        ∷ (codes "uint64", 4)
        ∷ (codes "float64", 4)
        ∷ [])
      1 data_type

-- `quantity > 0 && quantity < required`
unfoldable pub is_too_small : ℤ → ℕ → Bool
is_too_small (pos zero) required = false
is_too_small (pos (suc n)) required = ltb (suc n) required
is_too_small (negsuc n) required = false

unfoldable pub supports_modbus : Bool → Text → ℤ → Bool
supports_modbus true data_type fc = supports_modbus_read data_type fc
supports_modbus false data_type fc = supports_modbus_write data_type fc

-- The body behind the test for an empty data type.
unfoldable pub check_modbus_point : ModbusPoint → Bool → Result ModbusPoint
check_modbus_point point read = do
  data_type ← canonical point.data_type
  fc ← of_option (parse_int (trim_space point.function_code)) bad_number
  require (supports_modbus read data_type fc) unsupported_type
  require (not (is_too_small point.quantity (required_register_count data_type))) wrong_length
  ok (record point { data_type = data_type })

unfoldable pub normalize_modbus_data_type : Bool → ModbusPoint → Result ModbusPoint
normalize_modbus_data_type read point =
    if is_empty_text point.data_type
    then ok (record point { data_type = [] })
    else check_modbus_point point read

-- The data type of a point of the other three protocols, with the test for the protocol's types.
unfoldable pub normalize_data_type : (Text → Bool) → Text → Result Text
normalize_data_type supports data_type =
    if is_empty_text data_type
    then ok []
    else canonical data_type >>= λ t. require (supports t) unsupported_type >> ok t

unfoldable pub normalize_object_data_type : BacnetObject → Result BacnetObject
normalize_object_data_type object = do
  data_type ← normalize_data_type supports_bacnet object.object_data_type
  ok (record object { object_data_type = data_type })

unfoldable pub normalize_topic_data_type : MqttTopicConfig → Result MqttTopicConfig
normalize_topic_data_type topic = do
  data_type ← normalize_data_type supports_mqtt topic.topic_data_type
  ok (record topic { topic_data_type = data_type })

unfoldable pub normalize_node_data_type : OpcuaNode → Result OpcuaNode
normalize_node_data_type node = do
  data_type ← normalize_data_type supports_opcua node.node_data_type
  ok (record node { node_data_type = data_type })

-- A loop that replaces each point by its normal form, up to the first error.
unfoldable pub normalize_all {ℓ} : {A : Type ℓ} → (A → Result A) → List A → Result (List A)
normalize_all normalize [] = ok []
normalize_all normalize (a ∷ rest) = do
  b ← normalize a
  later ← normalize_all normalize rest
  ok (b ∷ later)

-- validatePointDataTypes of each package.
unfoldable pub validate_modbus_points : ModbusProtocol → Result ModbusProtocol
validate_modbus_points cfg = do
  reads ← normalize_all (normalize_modbus_data_type true) cfg.read
  writes ← normalize_all (normalize_modbus_data_type false) cfg.write
  ok (record { read = reads; write = writes })

unfoldable pub validate_bacnet_objects : BacnetObjects → Result BacnetObjects
validate_bacnet_objects cfg = do
  reads ← normalize_all normalize_object_data_type cfg.read_objects
  writes ← normalize_all normalize_object_data_type cfg.write_objects
  ok (record { read_objects = reads; write_objects = writes })

unfoldable pub validate_mqtt_topics : MqttTopics → Result MqttTopics
validate_mqtt_topics cfg = do
  subscribed ← normalize_all normalize_topic_data_type cfg.subscribe
  published ← normalize_all normalize_topic_data_type cfg.publish
  ok (record { subscribe = subscribed; publish = published })

unfoldable pub validate_opcua_nodes : OpcuaNodes → Result OpcuaNodes
validate_opcua_nodes cfg = do
  reads ← normalize_all normalize_node_data_type cfg.read_nodes
  writes ← normalize_all normalize_node_data_type cfg.write_nodes
  ok (record { read_nodes = reads; write_nodes = writes })

-- encoding/json on the `protocol` field of a property: its `type`, and the rest in the shape of each
-- protocol; none is an error. Nothing is assumed of it.
pub record JsonOf (Raw : Type 0) : Type 0 where
  pub type_of : Raw → Option Text
  pub modbus_of : Raw → Option ModbusProtocol
  pub bacnet_of : Raw → Option BacnetObjects
  pub mqtt_of : Raw → Option MqttTopics
  pub opcua_of : Raw → Option OpcuaNodes

module _ {Raw : Type 0} (js : JsonOf Raw) where
  -- `ParsePropProtocol` for a type name, a decoder and a check.
  unfoldable pub parse_protocol {ℓ} :
      {A : Type ℓ} → Text → (Raw → Option A) → (A → Result A) → Raw → Result A
  parse_protocol name decode validate raw = do
    base ← of_option (js.type_of raw) bad_text
    require (text_eq (to_upper (trim_space base)) name) unsupported_type
    cfg ← of_option (decode raw) bad_text
    validate cfg

  unfoldable pub parse_modbus : Raw → Result ModbusProtocol
  parse_modbus raw = parse_protocol (codes "MODBUS_RTU") js.modbus_of validate_modbus_points raw

  unfoldable pub parse_bacnet : Raw → Result BacnetObjects
  parse_bacnet raw = parse_protocol (codes "BACNET") js.bacnet_of validate_bacnet_objects raw

  unfoldable pub parse_mqtt : Raw → Result MqttTopics
  parse_mqtt raw = parse_protocol (codes "MQTT") js.mqtt_of validate_mqtt_topics raw

  unfoldable pub parse_opcua : Raw → Result OpcuaNodes
  parse_opcua raw = parse_protocol (codes "OPCUA") js.opcua_of validate_opcua_nodes raw
