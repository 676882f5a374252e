-- ===== src/Runtime/Opcua.antt =====
-- parseOpcuaPoints of internal/config/runtime.go.
use multiple_protocol_contro.Common.{Bool, List, Option, Text, [], codes, if◌then◌else◌, none}
use multiple_protocol_contro.Common.{not, some, text_eq, trim_space, ◌++◌, ◌||◌, ◌∷◌}
use multiple_protocol_contro.Protocol.Names.{Protocol, bacnet, get_protocol, modbus_rtu, mqtt}
use multiple_protocol_contro.Protocol.Names.{opcua}
use multiple_protocol_contro.Protocol.Points.{JsonOf, OpcuaNode, is_empty_text, parse_opcua}
use multiple_protocol_contro.Runtime.Device.{DeviceConfig, PointInfo, Property, is_read_disabled}
use multiple_protocol_contro.Runtime.Device.{is_zero_int, keep_valid, point_info, points_of}
use multiple_protocol_contro.Values.{Result, empty_payload, ok, require, ◌>>=◌, ◌>>◌}
use multiple_protocol_contro.Values.Decimal.Print.{print_ℤ}

pub record OpcuaParam : Type 0 where
  pub info : PointInfo
  pub param_node : Text
  pub read_disabled : Bool

pub record OpcuaCommand : Type 0 where
  pub command_info : PointInfo
  pub command_node : Text

module _ {Raw : Type 0} (js : JsonOf Raw) (dev : DeviceConfig Raw) where
  unfoldable pub opcua_param : Property Raw → OpcuaNode → Result OpcuaParam
  opcua_param prop node = do
    let node_id = trim_space node.node_id
    require (not (text_eq node_id [])) empty_payload
    ok (record {
      info = point_info dev prop node.node_data_type;
      param_node = node_id;
      read_disabled = is_read_disabled prop.access;
    })

  unfoldable pub opcua_command : Property Raw → OpcuaNode → Result OpcuaCommand
  opcua_command prop node = do
    let node_id = trim_space node.node_id
    require (not (text_eq node_id [])) empty_payload
    ok (record { command_info = point_info dev prop node.node_data_type; command_node = node_id })

  unfoldable pub opcua_points : Property Raw → Result (List OpcuaParam × List OpcuaCommand)
  opcua_points prop = do
    cfg ← parse_opcua js prop.protocol
    ok (
      keep_valid (opcua_param prop) cfg.read_nodes,
      keep_valid (opcua_command prop) cfg.write_nodes,
    )

  unfoldable pub opcua_points_by : Option Protocol → List OpcuaParam × List OpcuaCommand
  opcua_points_by (some modbus_rtu) = ([], [])
  opcua_points_by (some bacnet) = ([], [])
  opcua_points_by (some opcua) = points_of opcua_points dev.properties
  opcua_points_by (some mqtt) = ([], [])
  opcua_points_by none = ([], [])

  unfoldable pub parse_opcua_points : List OpcuaParam × List OpcuaCommand
  parse_opcua_points =
      if is_empty_text dev.device_protocol
      then ([], [])
      else opcua_points_by (get_protocol dev.device_protocol)

-- buildOpcuaEndpoint; `%d` of the port is its decimal text.
unfoldable pub build_opcua_endpoint : {Raw : Type 0} → DeviceConfig Raw → Text
build_opcua_endpoint dev =
    let ip = trim_space dev.gateway_info.ip in
    if text_eq ip [] || is_zero_int dev.gateway_info.port
    then []
    else codes "opc.tcp://" ++ (ip ++ (b':' ∷ print_ℤ dev.gateway_info.port))
