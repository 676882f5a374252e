-- ===== src/Control/Dispatch.antt =====
-- What the dispatch functions of internal/control/control.go share: the results of the calls, the
-- lookups, the verification, and the loop over the keys of an item.
pub mod Keys
pub mod Items
pub mod Attributes
pub mod Answered
use multiple_protocol_contro.Common.{Bool, List, Option, Text, [], false, if◌then◌else◌, none}
use multiple_protocol_contro.Common.{some, suc, text_eq, true, ℕ, ◌&&◌, ◌++◌, ◌∷◌}
use multiple_protocol_contro.Control.Compare.{Comparisons, control_values_equal_with_explicit}
use multiple_protocol_contro.Control.Payload.{Json}
use multiple_protocol_contro.Control.Readback.{CommandStatus, Readbacks, execute_modbus_write}
use multiple_protocol_contro.Control.Readback.{status_failed, status_of, status_unverified}
use multiple_protocol_contro.Control.Readback.{verify_control_readback}
use multiple_protocol_contro.Control.Results.{AttrDispatchResult}
use multiple_protocol_contro.Runtime.Bacnet.{BacnetCommand, BacnetParam}
use multiple_protocol_contro.Runtime.Device.{PointInfo}
use multiple_protocol_contro.Runtime.Modbus.{ModbusReadPoint, ModbusWritePoint}
use multiple_protocol_contro.Runtime.Opcua.{OpcuaCommand, OpcuaParam}
use multiple_protocol_contro.Values.{Error, Floats, Result, ValueOf, err, io_failed, ok, panic}

-- An element of `cmd.Data`: its device_id, empty where that is missing or no string, and its other
-- members in the order of their sorted keys, as commandKeys takes them.
pub record CommandItem (V : Type 0) : Type 0 where
  pub serial : Text
  pub members : List (Text × V)

-- What the calls of other packages do for one attribute: the connection's, the writes', and the
-- read-backs until the context is done after the `last` of them; and the texts of the errors.
pub record Calls (fl : Floats) : Type 0 where
  pub message : Error → Text
  pub manager_ready : Bool
  pub acquire : Text → Result (Unit {0})
  pub set_deadline : List ℕ → Result (Unit {0})
  pub send_frame : List ℕ → Result (Unit {0})
  pub wait_ack : ModbusWritePoint → Result (Unit {0})
  pub read_modbus : ModbusReadPoint → Readbacks (ValueOf fl)
  pub put_present_value : BacnetCommand → ValueOf fl → Result (Unit {0})
  pub read_present : BacnetParam → Readbacks (ValueOf fl)
  pub write_node : OpcuaCommand → ValueOf fl → Result (Unit {0})
  pub read_nodes : OpcuaParam → Readbacks (ValueOf fl)
  pub encode_json : Json (ValueOf fl) → Result Text
  pub publish : Text → Text → ℕ → Result (Unit {0})
  pub last : ℕ

-- findCommand and its like: the first element of that name.
unfoldable pub find_named {ℓ} : {A : Type ℓ} → (A → Text) → (A → Bool) → Text → List A → Option A
find_named name usable key [] = none
find_named name usable key (a ∷ rest) =
    let later = find_named name usable key rest in
    if text_eq (name a) key && usable a then some a else later

abbrev pub any_of {ℓ} : {A : Type ℓ} → A → Bool
any_of a = true

unfoldable pub failed_dispatch : Text → Text → Text → AttrDispatchResult
failed_dispatch serial identify message = record {
  device_serial = serial;
  identify = identify;
  status = some status_failed;
  error = some message;
}

-- A failed execution has an error, any other has none.
abbrev pub error_for : CommandStatus → Text → Option Text
error_for status_failed message = some message
error_for status message = none

unfoldable pub completed_dispatch : Text → Text → CommandStatus → Text → AttrDispatchResult
completed_dispatch serial identify status message = record {
  device_serial = serial;
  identify = identify;
  status = some status;
  error = error_for status message;
}

abbrev pub status_or_open : Option CommandStatus → CommandStatus
status_or_open none = status_failed
status_or_open (some status) = status

module _ (fl : Floats) (cs : Comparisons fl) (calls : Calls fl) where
  unfoldable pub verify_against :
      ValueOf fl → PointInfo → PointInfo → Readbacks (ValueOf fl) → Option (ℕ × CommandStatus)
  verify_against target written read rb =
      verify_control_readback
        (λ actual.
          control_values_equal_with_explicit fl cs target actual written.data_type written.explicit
            read.data_type read.explicit)
        rb (suc calls.last)

  -- Without a parameter to read back, the value stays unverified.
  unfoldable pub verify_bacnet : ValueOf fl → BacnetCommand → Option BacnetParam → CommandStatus
  verify_bacnet target command none = status_unverified
  verify_bacnet target command (some p) =
      status_or_open
        (status_of (verify_against target command.command_info p.info (calls.read_present p)))

  unfoldable pub verify_opcua : ValueOf fl → OpcuaCommand → Option OpcuaParam → CommandStatus
  verify_opcua target command none = status_unverified
  verify_opcua target command (some p) =
      status_or_open
        (status_of (verify_against target command.command_info p.info (calls.read_nodes p)))

  unfoldable pub verify_modbus :
      ValueOf fl → ModbusWritePoint → Option ModbusReadPoint → List ℕ → Option CommandStatus
  verify_modbus target command none frame =
      execute_modbus_write (calls.set_deadline frame) (calls.send_frame frame)
        (calls.wait_ack command) false none
  verify_modbus target command (some p) frame =
      execute_modbus_write (calls.set_deadline frame) (calls.send_frame frame)
        (calls.wait_ack command) true
        (verify_against target command.write_info p.info (calls.read_modbus p))

  -- `if err != nil { results = append(results, failedDispatch(serial, key, err)); continue }`, and what
  -- the loop does after it.
  unfoldable pub or_failed :
      {A : Type 0}
      → Text
      → Text
      → List AttrDispatchResult
      → Result A
      → (A → List AttrDispatchResult)
      → List AttrDispatchResult
  or_failed serial key results (ok a) next_step = next_step a
  or_failed serial key results (err e) next_step =
      results ++ (failed_dispatch serial key (calls.message e) ∷ [])
  or_failed serial key results panic next_step =
      results ++ (failed_dispatch serial key (calls.message io_failed) ∷ [])

  unfoldable pub add_completed :
      Text → Text → List AttrDispatchResult → CommandStatus → List AttrDispatchResult
  add_completed serial key results status =
      results ++ (completed_dispatch serial key status (calls.message io_failed) ∷ [])

  -- `for _, key := range commandKeys(item)`
  unfoldable pub each_key :
      (List AttrDispatchResult → Text × ValueOf fl → List AttrDispatchResult)
      → List AttrDispatchResult
      → List (Text × ValueOf fl)
      → List AttrDispatchResult
  each_key body results [] = results
  each_key body results (kv ∷ members) = each_key body (body results kv) members
