-- ===== src/Control/Dispatch/Answered.antt =====
-- Every attribute of a command is answered, and an answer that is no failure follows a write.
use multiple_protocol_contro.Common.{List, Option, Text, []}
use multiple_protocol_contro.Common.{if◌then◌else◌, none}
use multiple_protocol_contro.Common.{some, text_eq, ◌++◌, ◌∷◌, ◌≡◌}
use multiple_protocol_contro.Control.Compare.{Comparisons}
use multiple_protocol_contro.Control.Dispatch.{Calls, CommandItem, failed_dispatch}
use multiple_protocol_contro.Control.Dispatch.Attributes.{AnswerWith, Pairwise, WroteBacnet}
use multiple_protocol_contro.Control.Dispatch.Attributes.{WroteModbus, WroteMqtt, WroteOpcua}
use multiple_protocol_contro.Control.Results.{AttrDispatchResult}
use multiple_protocol_contro.Convert.Command.{Scans}
use multiple_protocol_contro.Protocol.Names.{is_bacnet_protocol, is_mqtt_protocol}
use multiple_protocol_contro.Protocol.Names.{is_opcua_protocol}
use multiple_protocol_contro.Runtime.Build.{DeviceRuntime, IotCfg}
use multiple_protocol_contro.Values.{Floats, ValueOf, no_device}

module _ (fl : Floats) (cs : Comparisons fl) (sc : Scans fl) (calls : Calls fl) {Raw : Type 0} where
  -- What an answer other than a failure follows, by the protocol of the device.
  abbrev pub Wrote : IotCfg Raw → Text → DeviceRuntime Raw → Text × ValueOf fl → Type 0
  Wrote cfg serial device kv =
      if is_bacnet_protocol device.config.device_protocol
      then WroteBacnet fl cs sc calls (cfg.device_bacnet_cmd_by_serial serial) kv.0 kv.1
      else if is_mqtt_protocol device.config.device_protocol
      then WroteMqtt fl cs sc calls (cfg.device_mqtt_cmd_by_serial serial) kv.0 kv.1
      else if is_opcua_protocol device.config.device_protocol
      then WroteOpcua fl cs sc calls (cfg.device_opcua_cmd_by_serial serial) kv.0 kv.1
      else WroteModbus fl cs sc calls device (cfg.device_cmd_by_serial serial) kv.0 kv.1

  -- The answers of a device: one for each key.
  abbrev pub AnswersDevice :
      IotCfg Raw
      → Text
      → DeviceRuntime Raw
      → List (Text × ValueOf fl)
      → List AttrDispatchResult
      → Type 0
  AnswersDevice cfg serial device members results =
      Pairwise
        (λ kv. AnswerWith fl cs calls device.config.serial_number kv.0 (Wrote cfg serial device kv))
        members results

  -- A device that is not there is answered with one failure.
  abbrev pub AnswersFound :
      IotCfg Raw
      → Text
      → Option (DeviceRuntime Raw)
      → List (Text × ValueOf fl)
      → List AttrDispatchResult
      → Type 0
  AnswersFound cfg serial none members results =
      results ≡ failed_dispatch serial [] (calls.message no_device) ∷ []
  AnswersFound cfg serial (some device) members results =
      (device.config.serial_number ≡ serial) × AnswersDevice cfg serial device members results

  -- An item without a device is not answered.
  abbrev pub AnswersItem : IotCfg Raw → CommandItem (ValueOf fl) → List AttrDispatchResult → Type 0
  AnswersItem cfg data_item results =
      if text_eq data_item.serial []
      then (results ≡ [])
      else AnswersFound cfg data_item.serial (cfg.device_by_serial data_item.serial)
          data_item.members results

  -- The answers of the items, one after the other.
  abbrev pub Answers :
      IotCfg Raw → List (CommandItem (ValueOf fl)) → List AttrDispatchResult → Type 0
  Answers cfg [] results = results ≡ []
  Answers cfg (data_item ∷ later) results =
      (here : List AttrDispatchResult) × (others : List AttrDispatchResult) × (results
        ≡ here ++ others)
      × AnswersItem cfg data_item here
      × Answers cfg later others
