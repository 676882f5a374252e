-- ===== src/Runtime/Params.antt =====
-- The parameters of a device by their keys: deviceParamValue and what reads it, in internal/config/runtime.go.
pub mod Bounds
use multiple_protocol_contro.Common.{Bool, List, Option, Text, [], codes, if◌then◌else◌, leb}
use multiple_protocol_contro.Common.{none, not, some, suc, text_eq, to_lower, trim_space, true}
use multiple_protocol_contro.Common.{zero, ℕ, ◌%◌, ◌&&◌, ◌^◌, ◌||◌, ◌∷◌}
use multiple_protocol_contro.Common.Int.{negsuc, pos, ℤ}
use multiple_protocol_contro.Protocol.Names.{normalize_name}
use multiple_protocol_contro.Protocol.Points.{is_empty_text}
use multiple_protocol_contro.Runtime.Bacnet.{remove_byte}
use multiple_protocol_contro.Runtime.Device.{DeviceConfig, DeviceParam}
use multiple_protocol_contro.Values.{Floats, Result, ValueOf, err, ok, panic, text}
use multiple_protocol_contro.Values.Coerce.{coerce_bool, coerce_int64, coerce_uint64}
use multiple_protocol_contro.Values.Hex.{parse_uint_dec_hex}

-- encoding/json on a raw value, as a string or as any value (none is an error), and fmt.Sprint. An empty
-- raw value has no bytes. Nothing is assumed of them.
pub record JsonValues (fl : Floats) (Raw : Type 0) : Type 0 where
  pub has_no_bytes : Raw → Bool
  pub as_string : Raw → Option Text
  pub as_any : Raw → Option (ValueOf fl)
  pub sprint_any : ValueOf fl → Text

unfoldable pub normalize_device_param_key : Text → Text
normalize_device_param_key key = to_lower (remove_byte b'-' (remove_byte b'_' (trim_space key)))

abbrev pub of_result {ℓ} : {A : Type ℓ} → Result A → Option A
of_result (ok a) = some a
of_result (err e) = none
of_result panic = none

abbrev pub or_default {ℓ} : {A : Type ℓ} → Option A → A → A
or_default none d = d
or_default (some a) d = a

-- A text that is not empty, or the default.
unfoldable pub text_or : Option Text → Text → Text
text_or none d = d
text_or (some s) d = if text_eq s [] then d else s

-- `val > 0`, and the default otherwise.
unfoldable pub if_positive : Option ℤ → ℕ → ℕ
if_positive none d = d
if_positive (some (pos zero)) d = d
if_positive (some (pos (suc n))) d = suc n
if_positive (some (negsuc n)) d = d

-- `val >= 0 && val <= 2`
unfoldable pub qos_or : Option ℤ → ℕ → ℕ
qos_or none d = d
qos_or (some (pos n)) d = if leb n 2 then n else d
qos_or (some (negsuc n)) d = d

pub record MqttParams : Type 0 where
  pub client_id : Text
  pub mqtt_username : Text
  pub mqtt_password : Text
  pub qos : ℕ
  pub keep_alive : ℕ
  pub clean_session : Bool

-- The first of two values that is there.
abbrev pub first_of {ℓ} : {A : Type ℓ} → Option A → Option A → Option A
first_of none later = later
first_of (some v) later = some v

module _ (fl : Floats) {Raw : Type 0} (js : JsonValues fl Raw) where
  -- `values[key]`: the last parameter of that key that has a value.
  unfoldable pub param_with_key : Text → List (DeviceParam Raw) → Option Raw
  param_with_key key [] = none
  param_with_key key (p ∷ rest) =
      let normalized = normalize_device_param_key p.param_key in
      let counts =
        not (text_eq normalized [] || js.has_no_bytes p.value) && text_eq normalized key in
      let later = param_with_key key rest in first_of later (if counts then some p.value else none)

  unfoldable pub device_param_value : List (DeviceParam Raw) → List Text → Option Raw
  device_param_value params [] = none
  device_param_value params (key ∷ keys) =
      let later = device_param_value params keys in
      first_of (param_with_key (normalize_device_param_key key) params) later

  -- CoerceString of pkg/utils/utils.go
  unfoldable pub coerce_string : ValueOf fl → Text
  coerce_string (text s) = s
  coerce_string v = js.sprint_any v

  -- The two attempts to decode a raw value.
  unfoldable pub decode_param {ℓ} :
      {A : Type ℓ}
      → (Text → Option A)
      → (ValueOf fl → Option A)
      → Option Text
      → Option (ValueOf fl)
      → Option A
  decode_param of_string of_any (some s) any = of_string s
  decode_param of_string of_any none none = none
  decode_param of_string of_any none (some v) = of_any v

  unfoldable pub string_of_raw : Option Raw → Option Text
  string_of_raw none = none
  string_of_raw (some raw) =
      decode_param (λ s. some (trim_space s)) (λ v. some (trim_space (coerce_string v)))
        (js.as_string raw) (js.as_any raw)

  unfoldable pub uint64_of_raw : Option Raw → Option ℕ
  uint64_of_raw none = none
  uint64_of_raw (some raw) =
      decode_param (λ s. parse_uint_dec_hex (trim_space s)) (λ v. of_result (coerce_uint64 fl v))
        (js.as_string raw) (js.as_any raw)

  unfoldable pub int_of_raw : Option Raw → Option ℤ
  int_of_raw none = none
  int_of_raw (some raw) =
      decode_param (λ s. none) (λ v. of_result (coerce_int64 fl v)) none (js.as_any raw)

  unfoldable pub bool_of_raw : Option Raw → Option Bool
  bool_of_raw none = none
  bool_of_raw (some raw) =
      decode_param (λ s. none) (λ v. of_result (coerce_bool fl v)) none (js.as_any raw)

  -- deviceParamString, deviceParamUint64, deviceParamInt and deviceParamBool
  unfoldable pub device_param_string : List (DeviceParam Raw) → List Text → Option Text
  device_param_string params keys = string_of_raw (device_param_value params keys)

  unfoldable pub device_param_uint64 : List (DeviceParam Raw) → List Text → Option ℕ
  device_param_uint64 params keys = uint64_of_raw (device_param_value params keys)

  unfoldable pub device_param_int : List (DeviceParam Raw) → List Text → Option ℤ
  device_param_int params keys = int_of_raw (device_param_value params keys)

  unfoldable pub device_param_bool : List (DeviceParam Raw) → List Text → Option Bool
  device_param_bool params keys = bool_of_raw (device_param_value params keys)

  unfoldable pub parse_slave_id : DeviceConfig Raw → ℕ
  parse_slave_id dev =
      if is_empty_text dev.device_protocol
      then 1
      else if text_eq (normalize_name dev.device_protocol) (codes "MODBUSRTU")
          || text_eq (normalize_name dev.device_protocol) (codes "MODBUS_RTU")
      then or_default (device_param_uint64 dev.params (codes "slaveID" ∷ codes "SlaveID" ∷ [])) 1
      else 1

  -- `uint32(val)`
  unfoldable pub parse_bacnet_device_instance : DeviceConfig Raw → ℕ
  parse_bacnet_device_instance dev =
      or_default (device_param_uint64 dev.params (codes "deviceInstance" ∷ [])) 0 % 2 ^ 32

  unfoldable pub parse_opcua_security : List (DeviceParam Raw) → Text × Text
  parse_opcua_security params = (
    text_or (device_param_string params (codes "securityPolicy" ∷ [])) (codes "None"),
    text_or (device_param_string params (codes "securityMode" ∷ [])) (codes "None"),
  )

  unfoldable pub parse_device_response_timeout : DeviceConfig Raw → ℕ
  parse_device_response_timeout dev =
      if_positive
        (device_param_int dev.params
          (codes "timeout" ∷ codes "responseTimeout" ∷ codes "responseTimeoutMs" ∷ []))
        (if_positive (some dev.acq_freq) 5000)

  -- Without parameters every lookup fails, and the defaults stand.
  unfoldable pub parse_mqtt_params : DeviceConfig Raw → MqttParams
  parse_mqtt_params dev = record {
    client_id = text_or (device_param_string dev.params (codes "clientId" ∷ [])) dev.serial_number;
    mqtt_username = text_or (device_param_string dev.params (codes "username" ∷ [])) dev.username;
    mqtt_password = text_or (device_param_string dev.params (codes "password" ∷ [])) dev.password;
    qos = qos_or (device_param_int dev.params (codes "qos" ∷ [])) 1;
    keep_alive = if_positive (device_param_int dev.params (codes "keepAlive" ∷ [])) 30;
    clean_session = or_default (device_param_bool dev.params (codes "cleanSession" ∷ [])) true;
  }
