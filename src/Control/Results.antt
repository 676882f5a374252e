-- ===== src/Control/Results.antt =====
-- The results of a command: buildCommandResultEnvelope and what it uses, internal/control/control.go.
pub mod Summary
use multiple_protocol_contro.Common.{Bool, List, Option, Text, [], codes, false, if◌then◌else◌}
use multiple_protocol_contro.Common.{map, none, some, text_eq, true, ℕ, ◌++◌, ◌∷◌}
use multiple_protocol_contro.Common.Int.{ℤ}
use multiple_protocol_contro.Control.Readback.{CommandStatus, status_failed, status_unverified}
use multiple_protocol_contro.Control.Readback.{status_verified}
use multiple_protocol_contro.History.Line.{join}

-- The status of a result that has none is verified; an error makes it failed.
pub record AttrDispatchResult : Type 0 where
  pub device_serial : Text
  pub identify : Text
  pub status : Option CommandStatus
  pub error : Option Text

pub record CommandAttributeResult : Type 0 where
  pub attribute : Text
  pub attribute_status : CommandStatus
  pub message : Text

-- What the entry of a device takes from its configuration.
pub record DeviceLabel : Type 0 where
  pub device_type : Text
  pub device_name : Text
  pub position : Text

pub record CommandResultEntry : Type 0 where
  pub device_id : Text
  pub label : DeviceLabel
  pub result : Text
  pub verification_status : CommandStatus
  pub attributes : List CommandAttributeResult

pub record CommandResultBody : Type 0 where
  pub code : Text
  pub msg : Text
  pub data_entries : List CommandResultEntry
  pub timestamp : ℤ
  pub http_status : ℕ
  pub uid : Text

abbrev pub or_verified : Option CommandStatus → CommandStatus
or_verified none = status_verified
or_verified (some status) = status

abbrev pub status_or_failed : Option Text → CommandStatus → CommandStatus
status_or_failed none status = status
status_or_failed (some message) status = status_failed

unfoldable pub normalized_command_status : AttrDispatchResult → CommandStatus
normalized_command_status r = status_or_failed r.error (or_verified r.status)

unfoldable pub merge_command_status : CommandStatus → CommandStatus → CommandStatus
merge_command_status status_failed next_status = status_failed
merge_command_status status_unverified status_failed = status_failed
merge_command_status status_unverified status_unverified = status_unverified
merge_command_status status_unverified status_verified = status_unverified
merge_command_status status_verified next_status = next_status

-- The fold over results, from a status on.
unfoldable pub merge_from : CommandStatus → List CommandStatus → CommandStatus
merge_from current [] = current
merge_from current (status ∷ rest) = merge_from (merge_command_status current status) rest

-- `strings.Join(failures, "; ")` of the errors.
abbrev pub failure_text : Text → Text → Text
failure_text identify message =
    if text_eq identify [] then message else identify ++ (codes ": " ++ message)

abbrev pub add_failure : Text → Option Text → List Text → List Text
add_failure identify none later = later
add_failure identify (some message) later = failure_text identify message ∷ later

abbrev pub failures_in : List AttrDispatchResult → List Text
failures_in [] = []
failures_in (r ∷ rest) = add_failure r.identify r.error (failures_in rest)

unfoldable pub collect_attr_failures : List AttrDispatchResult → Text
collect_attr_failures results = join (codes "; ") (failures_in results)

-- `grouped` and `order`: the results of each serial number, in the order of first occurrence.
unfoldable pub add_result :
    AttrDispatchResult
    → List (Text × List AttrDispatchResult)
    → List (Text × List AttrDispatchResult)
add_result r [] = (r.device_serial, r ∷ []) ∷ []
add_result r ((serial, results) ∷ groups) =
    let later = add_result r groups in
    if text_eq r.device_serial serial
    then (serial, results ++ (r ∷ [])) ∷ groups
    else (serial, results) ∷ later

unfoldable pub group_from :
    List (Text × List AttrDispatchResult)
    → List AttrDispatchResult
    → List (Text × List AttrDispatchResult)
group_from groups [] = groups
group_from groups (r ∷ rest) =
    group_from (if text_eq r.device_serial [] then groups else add_result r groups) rest

abbrev pub or_empty : Option Text → Text
or_empty none = []
or_empty (some message) = message

unfoldable pub attribute_of : AttrDispatchResult → CommandAttributeResult
attribute_of r = record {
  attribute = r.identify;
  attribute_status = normalized_command_status r;
  message = or_empty r.error;
}

abbrev pub is_unverified : CommandStatus → Bool
is_unverified status_unverified = true
is_unverified status = false

unfoldable pub entry_result : Text → CommandStatus → Text
entry_result failures status =
    if text_eq failures []
    then (if is_unverified status
        then codes "command_dispatched_unverified"
        else codes "command_executed_success")
    else codes "command_executed_fail: return " ++ failures

unfoldable pub entry_of : (Text → DeviceLabel) → Text × List AttrDispatchResult → CommandResultEntry
entry_of labels (serial, results) =
    let status = merge_from status_verified (map normalized_command_status results) in
    record {
      device_id = serial;
      label = labels serial;
      result = entry_result (collect_attr_failures results) status;
      verification_status = status;
      attributes = map attribute_of results;
    }

unfoldable pub code_and_msg : CommandStatus → Text × Text
code_and_msg status_failed = (codes "1", codes "fail")
code_and_msg status_unverified = (codes "0", codes "dispatched_unverified")
code_and_msg status_verified = (codes "0", codes "success")

-- The body for the groups, when there is one; `labels` are those of cfg.DeviceBySerial, empty for a device
-- that is not there.
unfoldable pub body_of :
    (Text → DeviceLabel)
    → Text
    → ℤ
    → List (Text × List AttrDispatchResult)
    → Option CommandResultBody
body_of labels uid now [] = none
body_of labels uid now (group ∷ groups) =
    let entries = map (entry_of labels) (group ∷ groups) in
    let overall = merge_from status_verified (map (λ entry. entry.verification_status) entries) in
    some (record {
      code = (code_and_msg overall).0;
      msg = (code_and_msg overall).1;
      data_entries = entries;
      timestamp = now;
      http_status = 200;
      uid = uid;
    })

unfoldable pub build_command_result_envelope :
    (Text → DeviceLabel) → Text → List AttrDispatchResult → ℤ → Option CommandResultBody
build_command_result_envelope labels uid results now =
    body_of labels uid now (group_from [] results)

-- commandLogResult; "no_result" is none.
unfoldable pub command_log_result : List AttrDispatchResult → Option CommandStatus
command_log_result [] = none
command_log_result (r ∷ results) =
    some (merge_from status_verified (map normalized_command_status (r ∷ results)))
