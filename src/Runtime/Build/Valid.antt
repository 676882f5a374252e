-- ===== src/Runtime/Build/Valid.antt =====
-- What every device has that is built.
use multiple_protocol_contro.Common.{Bool, [], ap, arith, false, not, refl, sym, text_eq}
use multiple_protocol_contro.Common.{text_eq_refl, trim_space, true, ◌<◌, ◌==◌, ◌^◌, ◌||◌, ◌≡◌}
use multiple_protocol_contro.Common.{◌≢◌, ◌≤◌}
use multiple_protocol_contro.Common.Int.{negsuc, pos, to_word, ℤ}
use multiple_protocol_contro.Protocol.Names.{is_mqtt_protocol}
use multiple_protocol_contro.Protocol.Points.{JsonOf}
use multiple_protocol_contro.Runtime.Build.{DeviceRuntime, build_device_runtime, device_runtime}
use multiple_protocol_contro.Runtime.Build.{has_gateway, port_of}
use multiple_protocol_contro.Runtime.Device.{DeviceConfig}
use multiple_protocol_contro.Runtime.Params.{JsonValues}
use multiple_protocol_contro.Runtime.Params.Bounds.{mqtt_params_range, response_timeout_positive}
use multiple_protocol_contro.Values.{Floats, no_device, ok, require-ok}
use mathlib.Core.Path.{subst}

to_word_lt : (n : ℤ) → to_word (2 ^ 16) n < 2 ^ 16
unfolding to_word
to_word_lt (pos n) = omega arith
to_word_lt (negsuc n) = omega arith

not_or : (a b : Bool) → not (a || b) ≡ true → (a ≡ false) × (b ≡ false)
not_or true b e = absurd cc
not_or false true e = absurd cc
not_or false false e = (refl, refl)

module _ {Raw : Type 0} where
  -- The ranges of a device of the runtime; an address is checked where the protocol dials one.
  pub record Usable (rt : DeviceRuntime Raw) : Type 0 where
    pub has_timeout : 0 < rt.response_timeout_ms
    pub has_address :
        is_mqtt_protocol rt.config.device_protocol ≡ false
        → (rt.gateway_ip ≢ []) × (0 < rt.gateway_port) × (rt.gateway_port < 2 ^ 16)
    pub has_mqtt :
        is_mqtt_protocol rt.config.device_protocol ≡ true
        → (rt.mqtt_params.qos ≤ 2) × (0 < rt.mqtt_params.keep_alive) × (rt.gateway_ip ≡ [])

  port_of-lt : (dev : DeviceConfig Raw) → port_of dev < 2 ^ 16
  port_of-lt dev = to_word_lt dev.gateway_info.port

  address_checked :
      (dev : DeviceConfig Raw)
      → has_gateway dev ≡ true
      → is_mqtt_protocol dev.device_protocol ≡ false
      → (trim_space dev.gateway_info.ip ≢ []) × (0 < port_of dev) × (port_of dev < 2 ^ 16)
  unfolding has_gateway
  address_checked dev h other_name =
      let (has_ip, has_port) =
        not_or (text_eq (trim_space dev.gateway_info.ip) []) (port_of dev == 0)
          (rw other_name at h) in
      (
        λ e. absurd (cc (ap (λ u. text_eq u []) e, text_eq_refl [], has_ip)),
        ground arith,
        port_of-lt dev,
      )

module _ (fl : Floats) {Raw : Type 0} (js : JsonOf Raw) (vs : JsonValues fl Raw) where
  device_runtime-Usable :
      (dev : DeviceConfig Raw) → has_gateway dev ≡ true → Usable (device_runtime fl js vs dev)
  unfolding device_runtime
  device_runtime-Usable dev h = record {
    has_timeout = response_timeout_positive fl vs dev;
    has_address = λ other_name. rw other_name (address_checked dev h other_name);
    has_mqtt = λ mqtt_name.
        rw mqtt_name (let (qos, alive) = mqtt_params_range fl vs dev in (qos, alive, refl));
  }

  -- A device that is built has a timeout above zero; its gateway has an address and a port of 16 bits
  -- that is not 0, unless it speaks MQTT; and then it has a quality of service of at most 2, a keep-alive
  -- above zero, and no gateway address.
  pub build_device_runtime-Usable :
      (dev : DeviceConfig Raw) (rt : DeviceRuntime Raw)
      → build_device_runtime fl js vs dev ≡ ok rt
      → Usable rt
  unfolding build_device_runtime
  build_device_runtime-Usable dev rt e =
      let (checked, same) = require-ok (has_gateway dev) no_device e in
      subst Usable (sym same) (device_runtime-Usable dev checked)
