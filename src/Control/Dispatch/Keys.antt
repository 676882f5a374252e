-- ===== src/Control/Dispatch/Keys.antt =====
-- dispatchBacnet, dispatchMqtt, dispatchOpcua and dispatchModbus of internal/control/control.go.
use multiple_protocol_contro.Common.{List, Option, Text, [], none, not, some, ◌++◌, ◌∷◌}
use multiple_protocol_contro.Common.Int.{pos_part}
use multiple_protocol_contro.Control.Compare.{Comparisons}
use multiple_protocol_contro.Control.Dispatch.{Calls, add_completed, any_of, each_key}
use multiple_protocol_contro.Control.Dispatch.{failed_dispatch, find_named, or_failed}
use multiple_protocol_contro.Control.Dispatch.{status_or_open, verify_bacnet, verify_modbus}
use multiple_protocol_contro.Control.Dispatch.{verify_opcua}
use multiple_protocol_contro.Control.Payload.{build_mqtt_payload}
use multiple_protocol_contro.Control.Readback.{status_unverified}
use multiple_protocol_contro.Control.Results.{AttrDispatchResult}
use multiple_protocol_contro.Convert.{normalize_bacnet_command_value}
use multiple_protocol_contro.Convert.{normalize_opcua_command_value}
use multiple_protocol_contro.Convert.Command.{Scans}
use multiple_protocol_contro.Modbus.Encode.{CommandMessage, build_modbus_frame}
use multiple_protocol_contro.Protocol.Names.{Protocol, get_protocol}
use multiple_protocol_contro.Runtime.Bacnet.{BacnetCommand}
use multiple_protocol_contro.Runtime.Build.{DeviceRuntime}
use multiple_protocol_contro.Runtime.Modbus.{ModbusWritePoint}
use multiple_protocol_contro.Runtime.Mqtt.{MqttCommand}
use multiple_protocol_contro.Runtime.Opcua.{OpcuaCommand}
use multiple_protocol_contro.Values.{Floats, ValueOf, no_device, of_option, unsupported_type}

module _ (fl : Floats) (cs : Comparisons fl) (sc : Scans fl) (calls : Calls fl) {Raw : Type 0} where
  unfoldable pub bacnet_key :
      DeviceRuntime Raw
      → List BacnetCommand
      → List AttrDispatchResult
      → Text × ValueOf fl
      → List AttrDispatchResult
  bacnet_key device commands results (key, v) =
      let serial = device.config.serial_number in
      or_failed fl cs calls serial key results
        (of_option (find_named (λ c. c.command_info.identify) any_of key commands) no_device)
        (λ command.
          or_failed fl cs calls serial key results
            (normalize_bacnet_command_value fl v command.command_info.data_type
              command.command_info.explicit)
            (λ target.
              or_failed fl cs calls serial key results (calls.put_present_value command target)
                (λ written. add_completed fl cs calls serial key results (
                  verify_bacnet fl cs calls target command (
                    find_named (λ p. p.info.identify) (λ p. not p.read_disabled) key
                      device.bacnet_read_points)))))

  unfoldable pub dispatch_bacnet :
      DeviceRuntime Raw → List BacnetCommand → List (Text × ValueOf fl) → List AttrDispatchResult
  dispatch_bacnet device commands members =
      each_key fl cs calls (bacnet_key device commands) [] members

  -- A published value is never read back.
  unfoldable pub mqtt_key :
      DeviceRuntime Raw
      → List MqttCommand
      → List AttrDispatchResult
      → Text × ValueOf fl
      → List AttrDispatchResult
  mqtt_key device commands results (key, v) =
      let serial = device.config.serial_number in
      or_failed fl cs calls serial key results
        (of_option (find_named (λ c. c.command_info.identify) any_of key commands) no_device)
        (λ command.
          or_failed fl cs calls serial key results
            (build_mqtt_payload fl sc command.command_path command.command_info.data_type
              command.command_info.explicit v)
            (λ payload.
              or_failed fl cs calls serial key results (calls.encode_json payload) (λ encoded.
                or_failed fl cs calls serial key results
                  (calls.publish command.publish_topic encoded command.command_qos)
                  (λ published. add_completed fl cs calls serial key results status_unverified))))

  unfoldable pub dispatch_mqtt :
      DeviceRuntime Raw → List MqttCommand → List (Text × ValueOf fl) → List AttrDispatchResult
  dispatch_mqtt device commands members = each_key fl cs calls (mqtt_key device commands) [] members

  unfoldable pub opcua_key :
      DeviceRuntime Raw
      → List OpcuaCommand
      → List AttrDispatchResult
      → Text × ValueOf fl
      → List AttrDispatchResult
  opcua_key device commands results (key, v) =
      let serial = device.config.serial_number in
      or_failed fl cs calls serial key results
        (of_option (find_named (λ c. c.command_info.identify) any_of key commands) no_device)
        (λ command.
          or_failed fl cs calls serial key results
            (normalize_opcua_command_value fl cs.sprint v command.command_info.data_type
              command.command_info.explicit)
            (λ target.
              or_failed fl cs calls serial key results (calls.write_node command target) (λ written.
                add_completed fl cs calls serial key results (
                  verify_opcua fl cs calls target command (
                    find_named (λ p. p.info.identify) (λ p. not p.read_disabled) key
                      device.opcua_read_points)))))

  unfoldable pub dispatch_opcua :
      DeviceRuntime Raw → List OpcuaCommand → List (Text × ValueOf fl) → List AttrDispatchResult
  dispatch_opcua device commands members =
      each_key fl cs calls (opcua_key device commands) [] members

  abbrev pub command_message :
      DeviceRuntime Raw → ModbusWritePoint → ValueOf fl → CommandMessage (ValueOf fl)
  command_message device command v = record {
    device_address = device.slave_id;
    function_code = pos_part command.write_code;
    address = command.write_address;
    data_type = command.write_info.data_type;
    explicit = command.write_info.explicit;
    endian = command.write_endian;
    value = v;
  }

  unfoldable pub modbus_key :
      DeviceRuntime Raw
      → List ModbusWritePoint
      → List AttrDispatchResult
      → Text × ValueOf fl
      → List AttrDispatchResult
  modbus_key device commands results (key, v) =
      let serial = device.config.serial_number in
      or_failed fl cs calls serial key results
        (of_option (find_named (λ c. c.write_info.identify) any_of key commands) no_device)
        (λ command.
          or_failed fl cs calls serial key results
            (build_modbus_frame fl (command_message device command v))
            (λ frame. or_failed fl cs calls serial key results (calls.acquire serial) (λ acquired.
              add_completed fl cs calls serial key results (
                status_or_open (
                  verify_modbus fl cs calls v command
                    (find_named (λ p. p.info.identify) (λ p. not p.read_disabled) key
                      device.read_points)
                    frame)))))

  -- Without a registered protocol every key fails.
  unfoldable pub unsupported_key :
      DeviceRuntime Raw → List AttrDispatchResult → Text × ValueOf fl → List AttrDispatchResult
  unsupported_key device results (key, v) =
      results
      ++ (failed_dispatch device.config.serial_number key (calls.message unsupported_type) ∷ [])

  unfoldable pub dispatch_by :
      Option Protocol
      → DeviceRuntime Raw
      → List ModbusWritePoint
      → List (Text × ValueOf fl)
      → List AttrDispatchResult
  dispatch_by none device commands members =
      each_key fl cs calls (unsupported_key device) [] members
  dispatch_by (some proto) device commands members =
      each_key fl cs calls (modbus_key device commands) [] members

  abbrev pub dispatch_modbus :
      DeviceRuntime Raw → List ModbusWritePoint → List (Text × ValueOf fl) → List AttrDispatchResult
  dispatch_modbus device commands members =
      dispatch_by (get_protocol device.config.device_protocol) device commands members
