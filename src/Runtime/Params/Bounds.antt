-- ===== src/Runtime/Params/Bounds.antt =====
-- The ranges of what is read of the parameters.
use multiple_protocol_contro.Common.{Option, arith, none, some, suc, zero, ℕ, ◌<◌, ◌≤◌}
use multiple_protocol_contro.Common.Int.{negsuc, pos, ℤ}
use multiple_protocol_contro.Runtime.Device.{DeviceConfig}
use multiple_protocol_contro.Runtime.Params.{JsonValues, if_positive}
use multiple_protocol_contro.Runtime.Params.{parse_device_response_timeout, parse_mqtt_params}
use multiple_protocol_contro.Runtime.Params.{qos_or}
use multiple_protocol_contro.Values.{Floats}

if_positive_positive : (n : Option ℤ) (d : ℕ) → 0 < d → 0 < if_positive n d
unfolding if_positive
if_positive_positive none d h = h
if_positive_positive (some (pos zero)) d h = h
if_positive_positive (some (pos (suc n))) d h = omega arith
if_positive_positive (some (negsuc n)) d h = h

qos_or_range : (n : Option ℤ) (d : ℕ) → d ≤ 2 → qos_or n d ≤ 2
unfolding qos_or
qos_or_range none d h = h
qos_or_range (some (pos n)) d h = ground arith
qos_or_range (some (negsuc n)) d h = h

module _ (fl : Floats) {Raw : Type 0} (js : JsonValues fl Raw) where
  pub response_timeout_positive :
      (dev : DeviceConfig Raw) → 0 < parse_device_response_timeout fl js dev
  unfolding parse_device_response_timeout
  response_timeout_positive dev =
      if_positive_positive _ _ (if_positive_positive _ 5000 (omega arith))

  pub mqtt_params_range :
      (dev : DeviceConfig Raw)
      → ((parse_mqtt_params fl js dev).qos ≤ 2) × (0 < (parse_mqtt_params fl js dev).keep_alive)
  unfolding parse_mqtt_params
  mqtt_params_range dev = (qos_or_range _ 1 (omega arith), if_positive_positive _ 30 (omega arith))
