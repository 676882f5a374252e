-- ===== src/Control/Tests.antt =====
-- Concrete commands, and comparisons by integers.
use multiple_protocol_contro.Common.{All, Bool, List, Text, [], codes, false}
use multiple_protocol_contro.Common.{if◌then◌else◌, leb, lower, ltb, map, none, refl, some, suc}
use multiple_protocol_contro.Common.{switch, text_eq, trim_space, true, zero, ℕ, ◌+◌, ◌==◌}
use multiple_protocol_contro.Common.{◌∷◌, ◌≡◌}
use multiple_protocol_contro.Common.Int.{neg_part, negsuc, pos, pos_part, ℤ}
use multiple_protocol_contro.Control.Compare.{Comparisons}
use multiple_protocol_contro.Control.Compare.{control_values_equal_with_explicit, same_bool}
use multiple_protocol_contro.Control.Dispatch.{Calls, CommandItem, completed_dispatch}
use multiple_protocol_contro.Control.Dispatch.{failed_dispatch}
use multiple_protocol_contro.Control.Payload.{HasNoDot, Json, build_mqtt_payload, decoded}
use multiple_protocol_contro.Control.Payload.{join_dots, keys_of, member, mqtt_payload, nest}
use multiple_protocol_contro.Control.Payload.{no_members, object, onto_first, read_payload}
use multiple_protocol_contro.Control.Payload.{read_payload-build, scalar, split_path}
use multiple_protocol_contro.Control.Readback.{CommandStatus, Readbacks}
use multiple_protocol_contro.Control.Readback.{status_unverified}
use multiple_protocol_contro.Control.Readback.{status_verified, verify_control_readback}
use multiple_protocol_contro.Control.Readback.Ends.{EndsBy, verify_control_readback-EndsBy}
use multiple_protocol_contro.Control.Results.{AttrDispatchResult, CommandResultBody, DeviceLabel}
use multiple_protocol_contro.Control.Results.{add_result, body_of, build_command_result_envelope}
use multiple_protocol_contro.Control.Results.{code_and_msg, entry_of, group_from}
use multiple_protocol_contro.Control.Results.{merge_command_status, merge_from}
use multiple_protocol_contro.Control.Results.{normalized_command_status}
use multiple_protocol_contro.Control.Results.Summary.{build_command_result_envelope-summary}
use multiple_protocol_contro.Control.Results.Summary.{merged_status}
use multiple_protocol_contro.Convert.{point_type}
use multiple_protocol_contro.Convert.Command.{Scans, command_explicit, normalize_command_value}
use multiple_protocol_contro.Protocol.Points.{JsonOf}
use multiple_protocol_contro.Runtime.Device.{DeviceConfig}
use multiple_protocol_contro.Runtime.Params.{JsonValues}
use multiple_protocol_contro.Values.{IntKind, Result, ValueOf, err, integer, io_failed, no_device}
use multiple_protocol_contro.Values.{ok, text}
use multiple_protocol_contro.Values.Decimal.{parse_int}
use multiple_protocol_contro.Values.Samples.{two_floats}

abbrev same_int_test : ℤ → ℤ → Bool
same_int_test (pos m) (pos n) = m == n
same_int_test (negsuc m) (negsuc n) = m == n
same_int_test (pos m) (negsuc n) = false
same_int_test (negsuc m) (pos n) = false

abbrev whole_comparisons : Comparisons two_floats
whole_comparisons = record {
  Rational = ℤ;
  rational_of_int = λ n. n;
  rational_of_float = λ f. if f then pos 1 else pos 0;
  rational_of_text = parse_int;
  same_rational = same_int_test;
  exceeds = λ n limit. ltb limit (pos_part n + neg_part n);
  sprint = λ v. [];
  deep_equal = λ v w. false;
  within_tolerance = same_bool;
}

abbrev quiet_scans : Scans two_floats
quiet_scans = record { scan_int = λ s. none; scan_float = λ s. none }

-- A payload of two levels.
abbrev nested : Json (ValueOf two_floats)
nested = object (
    member (codes "a") (object (member (codes "b") (scalar (text (codes "on"))) no_members))
      no_members)

nested_built :
    build_mqtt_payload two_floats quiet_scans
      (codes "a.b")
      (codes "string")
      true
      (text (codes "on"))
    ≡ ok nested
unfolding build_mqtt_payload normalize_command_value point_type switch lower trim_space text_eq
    command_explicit mqtt_payload split_path onto_first nest
nested_built = refl

-- What a decoder into interface{} makes of a text.
abbrev as_text : ValueOf two_floats → Text
as_text (text s) = s
as_text v = []

read_payload-build_example :
    (target : ValueOf two_floats) × (normalize_command_value two_floats quiet_scans
        (codes "string")
        true
        (text (codes "on"))
      ≡ ok target)
    × (join_dots (keys_of nested) ≡ codes "a.b")
    × All HasNoDot (keys_of nested)
    × (read_payload (codes "a.b") (decoded as_text nested) ≡ ok (scalar (as_text target)))
read_payload-build_example =
    read_payload-build two_floats quiet_scans as_text b'a' (codes ".b") (codes "string") true
      (text (codes "on")) nested nested_built

-- The device answers an error, an old value and the new one; the context is done after the fifth.
abbrev answers : ℕ → Result (ValueOf two_floats)
answers zero = err io_failed
answers (suc zero) = ok (integer IntKind.uint16 (pos 6))
answers (suc (suc n)) = ok (integer IntKind.uint16 (pos 7))

abbrev slow_device : Readbacks (ValueOf two_floats)
slow_device = record { readback = answers; done_after = λ i. leb 4 i; done_waiting = λ i. false }

abbrev is_seven : ValueOf two_floats → Bool
is_seven actual =
    control_values_equal_with_explicit two_floats whole_comparisons (integer IntKind.int16 (pos 7))
      actual (codes "int16") true (codes "uint16") true

abbrev acked : Result (Unit {0})
acked = ok tt

verify_control_readback-EndsBy_example :
    (result : ℕ × CommandStatus) × (verify_control_readback is_seven slow_device 5 ≡ some result)
    × EndsBy is_seven slow_device 0 4 result
verify_control_readback-EndsBy_example = verify_control_readback-EndsBy is_seven slow_device 4 refl

-- Two devices, one of which fails.
abbrev mixed : List AttrDispatchResult
mixed =
    completed_dispatch (codes "s1") (codes "level") status_verified []
    ∷ failed_dispatch (codes "s2") (codes "pump") (codes "no answer")
    ∷ completed_dispatch (codes "s1") (codes "valve") status_unverified []
    ∷ []

abbrev no_labels : Text → DeviceLabel
no_labels serial = record { device_type = []; device_name = []; position = [] }

abbrev mixed_body : CommandResultBody
mixed_body = record {
  code = codes "1";
  msg = codes "fail";
  data_entries = map (entry_of no_labels) (group_from [] mixed);
  timestamp = pos 1;
  http_status = 200;
  uid = codes "u";
}

mixed_built : build_command_result_envelope no_labels (codes "u") mixed (pos 1) ≡ some mixed_body
unfolding build_command_result_envelope body_of group_from add_result text_eq merge_from
    merge_command_status entry_of normalized_command_status completed_dispatch failed_dispatch
    code_and_msg
mixed_built = refl

build_command_result_envelope-summary_example :
    (codes "1", codes "fail") ≡ code_and_msg (merged_status mixed)
build_command_result_envelope-summary_example =
    build_command_result_envelope-summary no_labels (codes "u") mixed (pos 1) mixed_body mixed_built

-- Every call fails.
abbrev dead_calls : Calls two_floats
dead_calls = record {
  message = λ e. [];
  manager_ready = true;
  acquire = λ serial. err no_device;
  set_deadline = λ frame. ok tt;
  send_frame = λ frame. err io_failed;
  wait_ack = λ c. err io_failed;
  read_modbus = λ p. slow_device;
  put_present_value = λ c v. err io_failed;
  read_present = λ p. slow_device;
  write_node = λ c v. err io_failed;
  read_nodes = λ p. slow_device;
  encode_json = λ json. ok [];
  publish = λ topic payload qos. err io_failed;
  last = 4;
}

abbrev empty_json : JsonOf Text
empty_json = record {
  type_of = λ raw. none;
  modbus_of = λ raw. none;
  bacnet_of = λ raw. none;
  mqtt_of = λ raw. none;
  opcua_of = λ raw. none;
}

abbrev empty_values : JsonValues two_floats Text
empty_values = record {
  has_no_bytes = λ raw. true;
  as_string = λ raw. none;
  as_any = λ raw. none;
  sprint_any = λ v. [];
}

-- A device without any command, and an item for a device that is not there.
abbrev broker_device : DeviceConfig Text
broker_device = record {
  device_id = codes "d7";
  gateway_info = record { gateway_id = []; ip = []; port = pos 0 };
  serial_number = codes "s7";
  device_protocol = codes "MQTT";
  device_type = pos 0;
  acq_freq = pos 0;
  username = [];
  password = [];
  properties = [];
  params = [];
}

abbrev two_items : List (CommandItem (ValueOf two_floats))
two_items =
    record { serial = codes "s7"; members = (codes "level", text (codes "1")) ∷ [] }
    ∷ record { serial = codes "s9"; members = (codes "level", text (codes "1")) ∷ [] }
    ∷ []

abbrev two_failures : List AttrDispatchResult
two_failures =
    failed_dispatch (codes "s7") (codes "level") [] ∷ failed_dispatch (codes "s9") [] [] ∷ []
