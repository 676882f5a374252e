-- ===== src/Runtime/Bacnet.antt =====
-- parseBacnetPoints of internal/config/runtime.go.
-- strings.ReplaceAll(s, "x", "") for one byte.
use multiple_protocol_contro.Common.{Bool, List, Option, Text, [], codes, if◌then◌else◌, none}
use multiple_protocol_contro.Common.{some, switch, to_lower, trim_space, ℕ, ◌==◌, ◌∷◌}
use multiple_protocol_contro.Protocol.Names.{Protocol, bacnet, get_protocol, modbus_rtu, mqtt}
use multiple_protocol_contro.Protocol.Names.{opcua}
use multiple_protocol_contro.Protocol.Points.{BacnetObject, JsonOf, is_empty_text, parse_bacnet}
use multiple_protocol_contro.Runtime.Device.{DeviceConfig, PointInfo, Property, is_read_disabled}
use multiple_protocol_contro.Runtime.Device.{keep_valid, point_info, points_of}
use multiple_protocol_contro.Values.{Result, err, ok, unsupported_type, ◌>>=◌}

unfoldable pub remove_byte : ℕ → Text → Text
remove_byte c [] = []
remove_byte c (d ∷ s) = let rest = remove_byte c s in if d == c then rest else d ∷ rest

abbrev pub squeezed : Text → Text
squeezed raw = to_lower (remove_byte b'-' (remove_byte b'_' (trim_space raw)))

unfoldable pub normalize_bacnet_property_identifier : Text → Result Text
normalize_bacnet_property_identifier raw =
    switch ((codes "presentvalue", ok (codes "presentValue")) ∷ []) (err unsupported_type)
      (squeezed raw)

unfoldable pub normalize_bacnet_object_type : Text → Result Text
normalize_bacnet_object_type raw =
    switch
      ((codes "analoginput", ok (codes "analogInput"))
        ∷ (codes "analogoutput", ok (codes "analogOutput"))
        ∷ (codes "analogvalue", ok (codes "analogValue"))
        ∷ (codes "binaryinput", ok (codes "binaryInput"))
        ∷ (codes "binaryoutput", ok (codes "binaryOutput"))
        ∷ (codes "binaryvalue", ok (codes "binaryValue"))
        ∷ (codes "multistateinput", ok (codes "multiStateInput"))
        ∷ (codes "multistateoutput", ok (codes "multiStateOutput"))
        ∷ (codes "multistatevalue", ok (codes "multiStateValue"))
        ∷ [])
      (err unsupported_type) (squeezed raw)

pub record BacnetParam : Type 0 where
  pub info : PointInfo
  pub object_type : Text
  pub object_instance : ℕ
  pub property_identifier : Text
  pub read_disabled : Bool

pub record BacnetCommand : Type 0 where
  pub command_info : PointInfo
  pub command_object : Text
  pub command_instance : ℕ
  pub command_property : Text

module _ {Raw : Type 0} (js : JsonOf Raw) (dev : DeviceConfig Raw) where
  unfoldable pub bacnet_param : Property Raw → BacnetObject → Result BacnetParam
  bacnet_param prop obj = do
    property_name ← normalize_bacnet_property_identifier obj.object_property
    object_name ← normalize_bacnet_object_type obj.object_type
    ok (record {
      info = point_info dev prop obj.object_data_type;
      object_type = object_name;
      object_instance = obj.instance_number;
      property_identifier = property_name;
      read_disabled = is_read_disabled prop.access;
    })

  unfoldable pub bacnet_command : Property Raw → BacnetObject → Result BacnetCommand
  bacnet_command prop obj = do
    property_name ← normalize_bacnet_property_identifier obj.object_property
    object_name ← normalize_bacnet_object_type obj.object_type
    ok (record {
      command_info = point_info dev prop obj.object_data_type;
      command_object = object_name;
      command_instance = obj.instance_number;
      command_property = property_name;
    })

  unfoldable pub bacnet_points : Property Raw → Result (List BacnetParam × List BacnetCommand)
  bacnet_points prop = do
    cfg ← parse_bacnet js prop.protocol
    ok (
      keep_valid (bacnet_param prop) cfg.read_objects,
      keep_valid (bacnet_command prop) cfg.write_objects,
    )

  unfoldable pub bacnet_points_by : Option Protocol → List BacnetParam × List BacnetCommand
  bacnet_points_by (some modbus_rtu) = ([], [])
  bacnet_points_by (some bacnet) = points_of bacnet_points dev.properties
  bacnet_points_by (some opcua) = ([], [])
  bacnet_points_by (some mqtt) = ([], [])
  bacnet_points_by none = ([], [])

  unfoldable pub parse_bacnet_points : List BacnetParam × List BacnetCommand
  parse_bacnet_points =
      if is_empty_text dev.device_protocol
      then ([], [])
      else bacnet_points_by (get_protocol dev.device_protocol)
