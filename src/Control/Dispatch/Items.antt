-- ===== src/Control/Dispatch/Items.antt =====
-- The loop of ProcessCommand, internal/control/control.go.
use multiple_protocol_contro.Common.{Bool, List, Option, Text, [], false, if◌then◌else◌, none}
use multiple_protocol_contro.Common.{some, text_eq, true, ◌++◌, ◌∷◌}
use multiple_protocol_contro.Control.Compare.{Comparisons}
use multiple_protocol_contro.Control.Dispatch.{Calls, CommandItem, failed_dispatch}
use multiple_protocol_contro.Control.Dispatch.Keys.{dispatch_bacnet, dispatch_modbus}
use multiple_protocol_contro.Control.Dispatch.Keys.{dispatch_mqtt, dispatch_opcua}
use multiple_protocol_contro.Control.Results.{AttrDispatchResult}
use multiple_protocol_contro.Convert.Command.{Scans}
use multiple_protocol_contro.Protocol.Names.{is_bacnet_protocol, is_mqtt_protocol}
use multiple_protocol_contro.Protocol.Names.{is_opcua_protocol}
use multiple_protocol_contro.Runtime.Build.{DeviceRuntime, IotCfg}
use multiple_protocol_contro.Values.{Floats, Result, ValueOf, err, io_failed, no_device, ok}
use multiple_protocol_contro.Values.{◌>>=◌}

-- Without a TCP manager the command ends.
abbrev pub with_manager : Bool → List AttrDispatchResult → Result (List AttrDispatchResult)
with_manager true results = ok results
with_manager false results = err io_failed

module _ (fl : Floats) (cs : Comparisons fl) (sc : Scans fl) (calls : Calls fl) {Raw : Type 0} where
  -- The switch on the protocol of the device.
  unfoldable pub dispatch_device :
      IotCfg Raw
      → Text
      → DeviceRuntime Raw
      → List (Text × ValueOf fl)
      → Result (List AttrDispatchResult)
  dispatch_device cfg serial device members =
      if is_bacnet_protocol device.config.device_protocol
      then ok
          (dispatch_bacnet fl cs sc calls device (cfg.device_bacnet_cmd_by_serial serial) members)
      else if is_mqtt_protocol device.config.device_protocol
      then ok (dispatch_mqtt fl cs sc calls device (cfg.device_mqtt_cmd_by_serial serial) members)
      else if is_opcua_protocol device.config.device_protocol
      then ok (dispatch_opcua fl cs sc calls device (cfg.device_opcua_cmd_by_serial serial) members)
      else with_manager calls.manager_ready
          (dispatch_modbus fl cs sc calls device (cfg.device_cmd_by_serial serial) members)

  unfoldable pub dispatch_found :
      IotCfg Raw
      → Text
      → Option (DeviceRuntime Raw)
      → List (Text × ValueOf fl)
      → Result (List AttrDispatchResult)
  dispatch_found cfg serial none members =
      ok (failed_dispatch serial [] (calls.message no_device) ∷ [])
  dispatch_found cfg serial (some device) members = dispatch_device cfg serial device members

  unfoldable pub dispatch_item :
      IotCfg Raw → CommandItem (ValueOf fl) → Result (List AttrDispatchResult)
  dispatch_item cfg data_item =
      if text_eq data_item.serial []
      then ok []
      else dispatch_found cfg data_item.serial (cfg.device_by_serial data_item.serial)
          data_item.members

  -- The loop of ProcessCommand: an error where it returns before the results are published.
  unfoldable pub process_items :
      IotCfg Raw
      → List AttrDispatchResult
      → List (CommandItem (ValueOf fl))
      → Result (List AttrDispatchResult)
  process_items cfg results [] = ok results
  process_items cfg results (data_item ∷ later) =
      dispatch_item cfg data_item >>= λ added. process_items cfg (results ++ added) later
