-- ===== src/Control/Dispatch/Attributes.antt =====
-- What the four dispatch loops do for a key: one result, which is a failure or follows a write.
-- The lists have the same length, and their elements are related in pairs.
use multiple_protocol_contro.Common.{Bool, List, Option, Text, [], ap, append-nil, append_assoc}
use multiple_protocol_contro.Common.{inl, inr, none, refl, some, sym, ℕ, ◌++◌, ◌∙◌, ◌∷◌, ◌≡◌, ◌≢◌}
use multiple_protocol_contro.Common.{◌⊎◌}
use multiple_protocol_contro.Control.Compare.{Comparisons}
use multiple_protocol_contro.Control.Dispatch.{Calls, add_completed, any_of, completed_dispatch}
use multiple_protocol_contro.Control.Dispatch.{each_key, failed_dispatch, find_named, or_failed}
use multiple_protocol_contro.Control.Dispatch.{status_or_open, verify_modbus}
use multiple_protocol_contro.Control.Dispatch.Keys.{bacnet_key, command_message, dispatch_bacnet}
use multiple_protocol_contro.Control.Dispatch.Keys.{dispatch_by, dispatch_mqtt, dispatch_opcua}
use multiple_protocol_contro.Control.Dispatch.Keys.{modbus_key, mqtt_key, opcua_key}
use multiple_protocol_contro.Control.Dispatch.Keys.{unsupported_key}
use multiple_protocol_contro.Control.Payload.{Json, build_mqtt_payload}
use multiple_protocol_contro.Control.Readback.{CommandStatus, after_write, execute_modbus_write}
use multiple_protocol_contro.Control.Readback.{status_failed, status_unverified, status_verified}
use multiple_protocol_contro.Control.Results.{AttrDispatchResult}
use multiple_protocol_contro.Convert.{normalize_bacnet_command_value}
use multiple_protocol_contro.Convert.{normalize_opcua_command_value}
use multiple_protocol_contro.Convert.Command.{Scans}
use multiple_protocol_contro.Modbus.Encode.{build_modbus_frame}
use multiple_protocol_contro.Protocol.Names.{Protocol}
use multiple_protocol_contro.Runtime.Bacnet.{BacnetCommand}
use multiple_protocol_contro.Runtime.Build.{DeviceRuntime}
use multiple_protocol_contro.Runtime.Modbus.{ModbusReadPoint, ModbusWritePoint}
use multiple_protocol_contro.Runtime.Mqtt.{MqttCommand}
use multiple_protocol_contro.Runtime.Opcua.{OpcuaCommand}
use multiple_protocol_contro.Values.{Floats, Result, ValueOf, err, io_failed, no_device}
use multiple_protocol_contro.Values.{of_option-ok, ok, panic, unsupported_type}
use mathlib.Core.Path.{subst}

abbrev pub Pairwise : {A B : Type 0} → (A → B → Type 0) → List A → List B → Type 0
Pairwise R [] [] = Unit {0}
Pairwise R [] (b ∷ ys) = ⊥
Pairwise R (a ∷ xs) [] = ⊥
Pairwise R (a ∷ xs) (b ∷ ys) = R a b × Pairwise R xs ys

abbrev pub name_of : AttrDispatchResult → Text × Text
name_of r = (r.device_serial, r.identify)

abbrev pub IsFailure : AttrDispatchResult → Type 0
IsFailure r = (r.status ≡ some status_failed) × ((message : Text) × (r.error ≡ some message))

-- One result is appended, of which P holds.
abbrev Adds :
    (AttrDispatchResult → Type 0) → List AttrDispatchResult → List AttrDispatchResult → Type 0
Adds P results after = (r : AttrDispatchResult) × (after ≡ results ++ (r ∷ [])) × P r

unit_ok : (r : Result (Unit {0})) (u : Unit {0}) → r ≡ ok u → r ≡ ok tt
unit_ok r u e = e

-- A status other than a failure follows a write that was sent and acknowledged.
after_write-good :
    (deadline_set written acknowledged : Result (Unit {0})) (can_read : Bool)
    (verification : Option (ℕ × CommandStatus))
    → status_or_open (execute_modbus_write deadline_set written acknowledged can_read verification)
      ≢ status_failed
    → (written ≡ ok tt) × (acknowledged ≡ ok tt)
unfolding execute_modbus_write after_write
after_write-good (ok u1) (ok u2) (ok u3) can_read verification good = (refl, refl)
after_write-good (ok u1) (ok u2) (err e) can_read verification good = absurd (good refl)
after_write-good (ok u1) (ok u2) panic can_read verification good = absurd (good refl)
after_write-good (ok u1) (err e) acknowledged can_read verification good = absurd (good refl)
after_write-good (ok u1) panic acknowledged can_read verification good = absurd (good refl)
after_write-good (err e) written acknowledged can_read verification good = absurd (good refl)
after_write-good panic written acknowledged can_read verification good = absurd (good refl)

module _ (fl : Floats) (cs : Comparisons fl) (calls : Calls fl) where
  -- The result for a key of the device: a failure, or one that follows what W says.
  abbrev pub AnswerWith : Text → Text → Type 0 → AttrDispatchResult → Type 0
  AnswerWith serial key W r = (name_of r ≡ (serial, key)) × (IsFailure r ⊎ W)

  or_failed-Adds :
      {A : Type 0} (serial key : Text) (W : Type 0) (results : List AttrDispatchResult)
      (first : Result A) (next_step : A → List AttrDispatchResult)
      → ((a : A) → first ≡ ok a → Adds (AnswerWith serial key W) results (next_step a))
      → Adds
          (AnswerWith serial key W)
          results
          (or_failed fl cs calls serial key results first next_step)
  unfolding or_failed failed_dispatch
  or_failed-Adds serial key W results (ok a) next_step h = h a refl
  or_failed-Adds serial key W results (err e) next_step h =
      (_, refl, (refl, inl (refl, (calls.message e, refl))))
  or_failed-Adds serial key W results panic next_step h =
      (_, refl, (refl, inl (refl, (calls.message io_failed, refl))))

  add_completed-Adds :
      (serial key : Text) (W : Type 0) (results : List AttrDispatchResult) (status : CommandStatus)
      → (status ≢ status_failed → W)
      → Adds (AnswerWith serial key W) results (add_completed fl cs calls serial key results status)
  unfolding add_completed completed_dispatch
  add_completed-Adds serial key W results status_verified h =
      (_, refl, (refl, inr (h (λ e. absurd cc))))
  add_completed-Adds serial key W results status_unverified h =
      (_, refl, (refl, inr (h (λ e. absurd cc))))
  add_completed-Adds serial key W results status_failed h =
      (_, refl, (refl, inl (refl, (calls.message io_failed, refl))))

  -- The loop answers each key, in order.
  each_key-Pairwise :
      (P : Text × ValueOf fl → AttrDispatchResult → Type 0)
      (body : List AttrDispatchResult → Text × ValueOf fl → List AttrDispatchResult)
      (results : List AttrDispatchResult) (members : List (Text × ValueOf fl))
      → ((rs : List AttrDispatchResult) (kv : Text × ValueOf fl) → Adds (P kv) rs (body rs kv))
      → (added : List AttrDispatchResult) × (each_key fl cs calls body results members
          ≡ results ++ added)
        × Pairwise P members added
  unfolding each_key
  each_key-Pairwise P body results [] h = ([], sym (append-nil results), tt)
  each_key-Pairwise P body results (kv ∷ members) h =
      let (r, e, p) = h results kv in
      let (added, e', ps) = each_key-Pairwise P body (body results kv) members h in
      (r ∷ added, e' ∙ ap (λ l. l ++ added) e ∙ append_assoc results (r ∷ []) added, (p, ps))

  -- The loop from no result on.
  each_key-all :
      (P : Text × ValueOf fl → AttrDispatchResult → Type 0)
      (body : List AttrDispatchResult → Text × ValueOf fl → List AttrDispatchResult)
      (members : List (Text × ValueOf fl))
      → ((rs : List AttrDispatchResult) (kv : Text × ValueOf fl) → Adds (P kv) rs (body rs kv))
      → Pairwise P members (each_key fl cs calls body [] members)
  each_key-all P body members h =
      let (added, e, ps) = each_key-Pairwise P body [] members h in
      subst (Pairwise P members) (sym e) ps

  verify_modbus-good :
      (target : ValueOf fl) (command : ModbusWritePoint) (p : Option ModbusReadPoint)
      (frame : List ℕ)
      → status_or_open (verify_modbus fl cs calls target command p frame) ≢ status_failed
      → (calls.send_frame frame ≡ ok tt) × (calls.wait_ack command ≡ ok tt)
  unfolding verify_modbus
  verify_modbus-good target command none frame good = after_write-good _ _ _ _ _ good
  verify_modbus-good target command (some p) frame good = after_write-good _ _ _ _ _ good

module _ (fl : Floats) (cs : Comparisons fl) (sc : Scans fl) (calls : Calls fl) where
  -- The write of a value that a command of that name asks for has been accepted, by protocol.
  abbrev pub WroteBacnet : List BacnetCommand → Text → ValueOf fl → Type 0
  WroteBacnet commands key v =
      (command : BacnetCommand) × (find_named (λ c. c.command_info.identify) any_of key commands
        ≡ some command)
      × (target : ValueOf fl) × (normalize_bacnet_command_value fl v command.command_info.data_type
            command.command_info.explicit
          ≡ ok target)
      × (calls.put_present_value command target ≡ ok tt)

  abbrev pub WroteMqtt : List MqttCommand → Text → ValueOf fl → Type 0
  WroteMqtt commands key v =
      (command : MqttCommand) × (find_named (λ c. c.command_info.identify) any_of key commands
        ≡ some command)
      × (payload : Json (ValueOf fl)) × (build_mqtt_payload fl sc command.command_path
            command.command_info.data_type command.command_info.explicit v
          ≡ ok payload)
      × (encoded : Text) × (calls.encode_json payload ≡ ok encoded)
      × (calls.publish command.publish_topic encoded command.command_qos ≡ ok tt)

  abbrev pub WroteOpcua : List OpcuaCommand → Text → ValueOf fl → Type 0
  WroteOpcua commands key v =
      (command : OpcuaCommand) × (find_named (λ c. c.command_info.identify) any_of key commands
        ≡ some command)
      × (target : ValueOf fl) × (normalize_opcua_command_value fl cs.sprint v
            command.command_info.data_type command.command_info.explicit
          ≡ ok target)
      × (calls.write_node command target ≡ ok tt)

module _ (fl : Floats) (cs : Comparisons fl) (sc : Scans fl) (calls : Calls fl) {Raw : Type 0} where
  abbrev pub WroteModbus : DeviceRuntime Raw → List ModbusWritePoint → Text → ValueOf fl → Type 0
  WroteModbus device commands key v =
      (command : ModbusWritePoint) × (find_named (λ c. c.write_info.identify) any_of key commands
        ≡ some command)
      × (frame : List ℕ) × (build_modbus_frame fl (command_message fl cs sc calls device command v)
          ≡ ok frame)
      × (calls.acquire device.config.serial_number ≡ ok tt)
      × (calls.send_frame frame ≡ ok tt)
      × (calls.wait_ack command ≡ ok tt)

  bacnet_key-Adds :
      (device : DeviceRuntime Raw) (commands : List BacnetCommand)
      (results : List AttrDispatchResult) (kv : Text × ValueOf fl)
      → Adds
          (AnswerWith fl cs calls device.config.serial_number kv.0
            (WroteBacnet fl cs sc calls commands kv.0 kv.1))
          results
          (bacnet_key fl cs sc calls device commands results kv)
  unfolding bacnet_key
  bacnet_key-Adds device commands results (key, v) =
      or_failed-Adds fl cs calls _ key _ results _ _ (λ command found.
        or_failed-Adds fl cs calls _ key _ results _ _ (λ target converted.
          or_failed-Adds fl cs calls _ key _ results _ _ (λ u written.
            add_completed-Adds fl cs calls _ key _ results _ (λ good. (
              command,
              of_option-ok _ no_device found,
              target,
              converted,
              unit_ok (calls.put_present_value command target) u written,
            )))))

  mqtt_key-Adds :
      (device : DeviceRuntime Raw) (commands : List MqttCommand) (results : List AttrDispatchResult)
      (kv : Text × ValueOf fl)
      → Adds
          (AnswerWith fl cs calls device.config.serial_number kv.0
            (WroteMqtt fl cs sc calls commands kv.0 kv.1))
          results
          (mqtt_key fl cs sc calls device commands results kv)
  unfolding mqtt_key
  mqtt_key-Adds device commands results (key, v) =
      or_failed-Adds fl cs calls _ key _ results _ _ (λ command found.
        or_failed-Adds fl cs calls _ key _ results _ _ (λ payload made.
          or_failed-Adds fl cs calls _ key _ results _ _ (λ encoded printed.
            or_failed-Adds fl cs calls _ key _ results _ _ (λ u published.
              add_completed-Adds fl cs calls _ key _ results _ (λ good. (
                command,
                of_option-ok _ no_device found,
                payload,
                made,
                encoded,
                printed,
                unit_ok (calls.publish command.publish_topic encoded command.command_qos) u
                    published,
              ))))))

  opcua_key-Adds :
      (device : DeviceRuntime Raw) (commands : List OpcuaCommand)
      (results : List AttrDispatchResult) (kv : Text × ValueOf fl)
      → Adds
          (AnswerWith fl cs calls device.config.serial_number kv.0
            (WroteOpcua fl cs sc calls commands kv.0 kv.1))
          results
          (opcua_key fl cs sc calls device commands results kv)
  unfolding opcua_key
  opcua_key-Adds device commands results (key, v) =
      or_failed-Adds fl cs calls _ key _ results _ _ (λ command found.
        or_failed-Adds fl cs calls _ key _ results _ _ (λ target converted.
          or_failed-Adds fl cs calls _ key _ results _ _ (λ u written.
            add_completed-Adds fl cs calls _ key _ results _ (λ good. (
              command,
              of_option-ok _ no_device found,
              target,
              converted,
              unit_ok (calls.write_node command target) u written,
            )))))

  modbus_key-Adds :
      (device : DeviceRuntime Raw) (commands : List ModbusWritePoint)
      (results : List AttrDispatchResult) (kv : Text × ValueOf fl)
      → Adds
          (AnswerWith fl cs calls device.config.serial_number kv.0
            (WroteModbus device commands kv.0 kv.1))
          results
          (modbus_key fl cs sc calls device commands results kv)
  unfolding modbus_key
  modbus_key-Adds device commands results (key, v) =
      or_failed-Adds fl cs calls _ key _ results _ _ (λ command found.
        or_failed-Adds fl cs calls _ key _ results _ _ (λ frame made.
          or_failed-Adds fl cs calls _ key _ results _ _ (λ u acquired.
            add_completed-Adds fl cs calls _ key _ results _ (λ good.
              let (frame_sent, acknowledged) =
                verify_modbus-good fl cs calls v command _ frame good in
              (
                command,
                of_option-ok _ no_device found,
                frame,
                made,
                unit_ok (calls.acquire device.config.serial_number) u acquired,
                frame_sent,
                acknowledged,
              )))))

  unsupported_key-Adds :
      (device : DeviceRuntime Raw) (W : Type 0) (results : List AttrDispatchResult)
      (kv : Text × ValueOf fl)
      → Adds
          (AnswerWith fl cs calls device.config.serial_number kv.0 W)
          results
          (unsupported_key fl cs sc calls device results kv)
  unfolding unsupported_key failed_dispatch
  unsupported_key-Adds device W results (key, v) =
      (_, refl, (refl, inl (refl, (calls.message unsupported_type, refl))))

  -- What is answered by each of the four.
  pub dispatch_bacnet-Pairwise :
      (device : DeviceRuntime Raw) (commands : List BacnetCommand)
      (members : List (Text × ValueOf fl))
      → Pairwise
          (λ kv.
            AnswerWith fl cs calls device.config.serial_number kv.0
              (WroteBacnet fl cs sc calls commands kv.0 kv.1))
          members
          (dispatch_bacnet fl cs sc calls device commands members)
  unfolding dispatch_bacnet
  dispatch_bacnet-Pairwise device commands members =
      each_key-all fl cs calls _ _ members (bacnet_key-Adds device commands)

  pub dispatch_mqtt-Pairwise :
      (device : DeviceRuntime Raw) (commands : List MqttCommand)
      (members : List (Text × ValueOf fl))
      → Pairwise
          (λ kv.
            AnswerWith fl cs calls device.config.serial_number kv.0
              (WroteMqtt fl cs sc calls commands kv.0 kv.1))
          members
          (dispatch_mqtt fl cs sc calls device commands members)
  unfolding dispatch_mqtt
  dispatch_mqtt-Pairwise device commands members =
      each_key-all fl cs calls _ _ members (mqtt_key-Adds device commands)

  pub dispatch_opcua-Pairwise :
      (device : DeviceRuntime Raw) (commands : List OpcuaCommand)
      (members : List (Text × ValueOf fl))
      → Pairwise
          (λ kv.
            AnswerWith fl cs calls device.config.serial_number kv.0
              (WroteOpcua fl cs sc calls commands kv.0 kv.1))
          members
          (dispatch_opcua fl cs sc calls device commands members)
  unfolding dispatch_opcua
  dispatch_opcua-Pairwise device commands members =
      each_key-all fl cs calls _ _ members (opcua_key-Adds device commands)

  pub dispatch_by-Pairwise :
      (proto : Option Protocol) (device : DeviceRuntime Raw) (commands : List ModbusWritePoint)
      (members : List (Text × ValueOf fl))
      → Pairwise
          (λ kv.
            AnswerWith fl cs calls device.config.serial_number kv.0
              (WroteModbus device commands kv.0 kv.1))
          members
          (dispatch_by fl cs sc calls proto device commands members)
  unfolding dispatch_by
  dispatch_by-Pairwise none device commands members =
      each_key-all fl cs calls _ _ members (λ rs kv. unsupported_key-Adds device _ rs kv)
  dispatch_by-Pairwise (some proto) device commands members =
      each_key-all fl cs calls _ _ members (modbus_key-Adds device commands)
