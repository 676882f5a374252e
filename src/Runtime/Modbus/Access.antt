-- ===== src/Runtime/Modbus/Access.antt =====
-- Which properties of a Modbus device can be commanded, and which devices have points at all.
use multiple_protocol_contro.Common.{Bool-cases, In, Option, [], ap, codes, inl, inr, none, refl}
use multiple_protocol_contro.Common.{some, sym, true, ℕ, ◌∙◌, ◌≡◌, ◌≢◌}
use multiple_protocol_contro.Gateway.{member}
use multiple_protocol_contro.Protocol.Names.{Protocol, bacnet, get_protocol, is_modbus_protocol}
use multiple_protocol_contro.Protocol.Names.{modbus_rtu, mqtt, normalize_name, opcua}
use multiple_protocol_contro.Protocol.Names.Registered.{other_modbus_names}
use multiple_protocol_contro.Protocol.Points.{JsonOf, ModbusPoint, is_empty_text, parse_modbus}
use multiple_protocol_contro.Runtime.Build.{DeviceRuntime, build_device_runtime, device_runtime}
use multiple_protocol_contro.Runtime.Build.{has_gateway}
use multiple_protocol_contro.Runtime.Device.{DeviceConfig, Property, is_write_enabled, keep_valid}
use multiple_protocol_contro.Runtime.Device.{point_info, points_of}
use multiple_protocol_contro.Runtime.Modbus.{ModbusWritePoint, modbus_points, modbus_points_by}
use multiple_protocol_contro.Runtime.Modbus.{parse_modbus_points, read_point, write_point}
use multiple_protocol_contro.Runtime.Origin.{commands_of-In, keep_valid-In}
use multiple_protocol_contro.Runtime.Params.{JsonValues, parse_slave_id}
use multiple_protocol_contro.Values.{>>=-ok, Floats, bad_number, map-ok, no_device, of_option, ok}
use multiple_protocol_contro.Values.{ok-injective, require-ok}
use multiple_protocol_contro.Values.Decimal.{parse_int}
use multiple_protocol_contro.Values.Hex.{parse_uint_dec_hex}
use mathlib.Core.Path.{subst}

-- The write point belongs to a property of the device that may be written.
abbrev pub Writable : {Raw : Type 0} → DeviceConfig Raw → ModbusWritePoint → Type 0
Writable {Raw} dev c =
    (prop : Property Raw) × In prop dev.properties
    × (is_write_enabled prop.access ≡ true)
    × (c.write_info.identify ≡ prop.key)

module _ {Raw : Type 0} (js : JsonOf Raw) (dev : DeviceConfig Raw) (slave_id : ℕ) where
  commands_by-In :
      (o : Option Protocol) (c : ModbusWritePoint)
      → In c (modbus_points_by js dev slave_id o).1
      → In c (points_of (modbus_points js dev slave_id) dev.properties).1
  unfolding modbus_points_by
  commands_by-In none c m = absurd m
  commands_by-In (some modbus_rtu) c m = m
  commands_by-In (some bacnet) c m = absurd m
  commands_by-In (some opcua) c m = absurd m
  commands_by-In (some mqtt) c m = absurd m

  parse_modbus_commands-In :
      (c : ModbusWritePoint)
      → In c (parse_modbus_points js dev slave_id).1
      → In c (points_of (modbus_points js dev slave_id) dev.properties).1
  unfolding parse_modbus_points
  parse_modbus_commands-In c m = elim (Bool-cases (is_empty_text dev.device_protocol)) [
    | inl unset ↦ absurd (rw unset at m)
    | inr given ↦ commands_by-In (get_protocol dev.device_protocol) c (rw given at m)
  ]

  write_point-identify :
      (prop : Property Raw) (pt : ModbusPoint) (c : ModbusWritePoint)
      → write_point js dev slave_id prop pt ≡ ok c
      → c.write_info.identify ≡ prop.key
  unfolding write_point point_info
  write_point-identify prop pt c e =
      let (fc, _, e1) = >>=-ok (of_option (parse_int pt.function_code) bad_number) _ e in
      let (addr, _, e2) = >>=-ok (of_option (parse_uint_dec_hex pt.address) bad_number) _ e1 in
      sym (ap (λ q. q.write_info.identify) (ok-injective e2))

  write_point-Writable :
      (c : ModbusWritePoint) → In c (parse_modbus_points js dev slave_id).1 → Writable dev c
  unfolding modbus_points
  write_point-Writable c m =
      let (prop, member, points, e, writable, here) =
        commands_of-In (modbus_points js dev slave_id) dev.properties c
          (parse_modbus_commands-In c m) in
      let (cfg, _, made) =
        map-ok (parse_modbus js prop.protocol)
          (λ cfg. (
            keep_valid (read_point js dev slave_id prop) cfg.read,
            keep_valid (write_point js dev slave_id prop) cfg.write,
          ))
          e in
      let (pt, _, written) =
        keep_valid-In (write_point js dev slave_id prop) cfg.write c
          (subst (λ q. In c q.1) made here) in
      (prop, member, writable, write_point-identify prop pt c written)

  no_protocol :
      get_protocol dev.device_protocol ≡ none → parse_modbus_points js dev slave_id ≡ ([], [])
  unfolding parse_modbus_points modbus_points_by
  no_protocol e = elim (Bool-cases (is_empty_text dev.device_protocol)) [
    | inl unset ↦ rw unset refl
    | inr given ↦ rw (given, e) refl
  ]

module _ (fl : Floats) {Raw : Type 0} (js : JsonOf Raw) (vs : JsonValues fl Raw) where
  -- Each write point of a device that is built belongs to one of its properties that may be written.
  pub write_points-Writable :
      (dev : DeviceConfig Raw) (rt : DeviceRuntime Raw) (c : ModbusWritePoint)
      → build_device_runtime fl js vs dev ≡ ok rt
      → In c rt.write_points
      → Writable dev c
  unfolding build_device_runtime device_runtime
  write_points-Writable dev rt c e m =
      let (_, same) = require-ok (has_gateway dev) no_device e in
      let m' = subst (λ q. In c q.write_points) same m in
      elim (Bool-cases (is_modbus_protocol dev.device_protocol)) [
        | inl modbus_named ↦
            write_point-Writable js dev (parse_slave_id fl vs dev) c (rw modbus_named at m')
        | inr other_named ↦ absurd (rw other_named at m')
      ]

  -- A device whose protocol has a Modbus name other than MODBUS_RTU is built without points.
  pub other_modbus_names-points :
      (dev : DeviceConfig Raw) (rt : DeviceRuntime Raw)
      → build_device_runtime fl js vs dev ≡ ok rt
      → is_modbus_protocol dev.device_protocol ≡ true
      → normalize_name dev.device_protocol ≢ codes "MODBUS_RTU"
      → (rt.read_points ≡ []) × (rt.write_points ≡ [])
  unfolding build_device_runtime device_runtime
  other_modbus_names-points dev rt e modbus_named other_name =
      let (_, same) = require-ok (has_gateway dev) no_device e in
      let none_found =
        no_protocol js dev (parse_slave_id fl vs dev)
          (other_modbus_names dev.device_protocol modbus_named other_name) in
      (
        ap (λ q. q.read_points) same ∙ rw (modbus_named, none_found) refl,
        ap (λ q. q.write_points) same ∙ rw (modbus_named, none_found) refl,
      )
