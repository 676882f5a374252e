-- ===== src/Runtime/Modbus/Safe.antt =====
-- The points that the runtime makes of a checked configuration, as the collector reads them.
-- Each type of a list has the width that decodeRegisterValue takes for it.
use multiple_protocol_contro.Common.{Bool, Bool-cases, In, List, Option, Text, [], and_true, ap}
use multiple_protocol_contro.Common.{arith, false, inl, inr, leb, leb→le, lower, none, refl, some}
use multiple_protocol_contro.Common.{suc, switch, sym, text_eq, text_eq→eq, to_lower, true, zero}
use multiple_protocol_contro.Common.{ℕ, ◌&&◌, ◌^◌, ◌∙◌, ◌∷◌, ◌≡◌, ◌≢◌, ◌≤◌}
use multiple_protocol_contro.Common.Int.{FitsSigned, negsuc, pos, ℤ}
use multiple_protocol_contro.Modbus.Decode.{decode_register_value}
use multiple_protocol_contro.Modbus.Decode.Panic.{decode-ne-panic}
use multiple_protocol_contro.Modbus.Registers.{default_quantity, quantity_for_param, quantity_of}
use multiple_protocol_contro.Modbus.Registers.{register_type}
use multiple_protocol_contro.Protocol.DataTypes.{has_key, register_read_types}
use multiple_protocol_contro.Protocol.Names.{Protocol, bacnet, get_protocol, is_modbus_protocol}
use multiple_protocol_contro.Protocol.Names.{modbus_rtu, mqtt, opcua}
use multiple_protocol_contro.Protocol.Points.{JsonOf, ModbusPoint, is_empty_text, is_too_small}
use multiple_protocol_contro.Protocol.Points.{normalize_modbus_data_type, parse_modbus}
use multiple_protocol_contro.Protocol.Points.{required_register_count}
use multiple_protocol_contro.Protocol.Points.Checked.{Readable, checked-Readable}
use multiple_protocol_contro.Protocol.Points.Checked.{normalize_all-In, parse_modbus-read}
use multiple_protocol_contro.Runtime.Build.{DeviceRuntime, build_device_runtime, device_runtime}
use multiple_protocol_contro.Runtime.Build.{has_gateway}
use multiple_protocol_contro.Runtime.Device.{DeviceConfig, PointInfo, Property}
use multiple_protocol_contro.Runtime.Device.{effective_data_type, keep_valid, point_info}
use multiple_protocol_contro.Runtime.Device.{points_of}
use multiple_protocol_contro.Runtime.Modbus.{ModbusReadPoint, modbus_points, modbus_points_by}
use multiple_protocol_contro.Runtime.Modbus.{param_of, parse_modbus_points, read_point}
use multiple_protocol_contro.Runtime.Modbus.{write_point}
use multiple_protocol_contro.Runtime.Origin.{keep_valid-In, points_of-In}
use multiple_protocol_contro.Runtime.Params.{JsonValues, parse_slave_id}
use multiple_protocol_contro.Values.{>>=-ok, Floats, bad_number, map-ok, no_device, of_option, ok}
use multiple_protocol_contro.Values.{ok-injective, panic, require-ok}
use multiple_protocol_contro.Values.Decimal.{parse_int}
use multiple_protocol_contro.Values.Hex.{parse_uint_dec_hex}
use mathlib.Core.Path.{subst}

same_width : List Text → Bool
same_width [] = true
same_width (t ∷ rest) =
    leb (default_quantity (register_type (to_lower t)) true) (required_register_count t)
    && same_width rest

same_width-has_key :
    (types : List Text) (t : Text)
    → same_width types ≡ true
    → has_key types t ≡ true
    → default_quantity (register_type (to_lower t)) true ≤ required_register_count t
unfolding same_width has_key
same_width-has_key [] t h m = absurd cc
same_width-has_key (u ∷ rest) t h m =
    let (first, others) =
      and_true
        (leb (default_quantity (register_type (to_lower u)) true) (required_register_count u))
        (same_width rest) h in
    elim (Bool-cases (text_eq t u)) [
      | inl here ↦ rw (text_eq→eq t u here) (leb→le _ _ first)
      | inr there ↦ same_width-has_key rest t others (rw there at m)
    ]

read_types_same_width : same_width register_read_types ≡ true
unfolding same_width default_quantity register_type lower switch required_register_count text_eq
read_types_same_width = refl

-- A quantity that is given, fits 16 bits and is not too small is the one that is read.
quantity_of_enough :
    (q : ℤ) (default required : ℕ)
    → FitsSigned (2 ^ 16) q
    → is_too_small q required ≡ false
    → default ≤ required
    → default ≤ quantity_of q default
unfolding quantity_of is_too_small
quantity_of_enough (pos zero) default required f h k = omega arith
quantity_of_enough (pos (suc n)) default required f h k = ground arith
quantity_of_enough (negsuc n) default required f h k = omega arith

point_info-explicit :
    {Raw : Type 0} (dev : DeviceConfig Raw) (prop : Property Raw) (point_type : Text)
    (info : PointInfo)
    → info ≡ point_info dev prop point_type
    → info.explicit ≡ true
    → (is_empty_text point_type ≡ false) × (info.data_type ≡ point_type)
unfolding point_info effective_data_type
point_info-explicit dev prop point_type info e h = elim (Bool-cases (is_empty_text point_type)) [
  | inl unset ↦ absurd (cc (ap (λ i. i.explicit) e, h, unset))
  | inr given ↦ (given, ap (λ i. i.data_type) e ∙ rw given refl)
]

module _ {Raw : Type 0} (js : JsonOf Raw) (dev : DeviceConfig Raw) (slave_id : ℕ) where
  modbus_points_by-In :
      (o : Option Protocol) (p : ModbusReadPoint)
      → In p (modbus_points_by js dev slave_id o).0
      → In p (points_of (modbus_points js dev slave_id) dev.properties).0
  unfolding modbus_points_by
  modbus_points_by-In none p m = absurd m
  modbus_points_by-In (some modbus_rtu) p m = m
  modbus_points_by-In (some bacnet) p m = absurd m
  modbus_points_by-In (some opcua) p m = absurd m
  modbus_points_by-In (some mqtt) p m = absurd m

  parse_modbus_points-In :
      (p : ModbusReadPoint)
      → In p (parse_modbus_points js dev slave_id).0
      → In p (points_of (modbus_points js dev slave_id) dev.properties).0
  unfolding parse_modbus_points
  parse_modbus_points-In p m = elim (Bool-cases (is_empty_text dev.device_protocol)) [
    | inl unset ↦ absurd (rw unset at m)
    | inr given ↦ modbus_points_by-In (get_protocol dev.device_protocol) p (rw given at m)
  ]

  -- The data type and the quantity of a read point are those of the configured one.
  read_point-fields :
      (prop : Property Raw) (pt : ModbusPoint) (p : ModbusReadPoint)
      → read_point js dev slave_id prop pt ≡ ok p
      → (p.info ≡ point_info dev prop pt.data_type) × (p.quantity ≡ pt.quantity)
  unfolding read_point
  read_point-fields prop pt p e =
      let (fc, _, e1) = >>=-ok (of_option (parse_int pt.function_code) bad_number) _ e in
      let (addr, _, e2) = >>=-ok (of_option (parse_uint_dec_hex pt.address) bad_number) _ e1 in
      let fields = ok-injective e2 in
      (sym (ap (λ q. q.info) fields), sym (ap (λ q. q.quantity) fields))

  -- Each read point is made of a configured point that has passed its check.
  read_point-origin :
      (p : ModbusReadPoint)
      → In p (parse_modbus_points js dev slave_id).0
      → (prop : Property Raw) × (raw pt : ModbusPoint) × (normalize_modbus_data_type true raw
          ≡ ok pt)
        × (read_point js dev slave_id prop pt ≡ ok p)
  unfolding modbus_points
  read_point-origin p m =
      let (prop, _, points, e, here) =
        points_of-In (modbus_points js dev slave_id) dev.properties p
          (parse_modbus_points-In p m) in
      let (cfg, parsed, made) =
        map-ok (parse_modbus js prop.protocol)
          (λ cfg. (
            keep_valid (read_point js dev slave_id prop) cfg.read,
            keep_valid (write_point js dev slave_id prop) cfg.write,
          ))
          e in
      let (pt, passed, read) =
        keep_valid-In (read_point js dev slave_id prop) cfg.read p
          (subst (λ q. In p q.0) made here) in
      let (configured, checked) = parse_modbus-read js prop.protocol cfg parsed in
      let (raw, _, normal) =
        normalize_all-In (normalize_modbus_data_type true) configured cfg.read pt checked passed in
      (prop, raw, pt, normal, read)

  -- A point whose data type is explicit has passed the check of read points.
  pub explicit-Readable :
      (p : ModbusReadPoint)
      → In p (parse_modbus_points js dev slave_id).0
      → p.info.explicit ≡ true
      → Readable p.info.data_type p.quantity
  explicit-Readable p m explicit =
      let (prop, raw, pt, normal, read) = read_point-origin p m in
      let (info, quantity) = read_point-fields prop pt p read in
      let (given, same) = point_info-explicit dev prop pt.data_type p.info info explicit in
      rw (same, quantity) (checked-Readable raw pt normal given)

module _ (fl : Floats) {Raw : Type 0} (js : JsonOf Raw) (vs : JsonValues fl Raw) where
  read_points-In :
      (dev : DeviceConfig Raw) (rt : DeviceRuntime Raw) (p : ModbusReadPoint)
      → build_device_runtime fl js vs dev ≡ ok rt
      → In p rt.read_points
      → (slave_id : ℕ) × In p (parse_modbus_points js dev slave_id).0
  unfolding build_device_runtime device_runtime
  read_points-In dev rt p e m =
      let (_, same) = require-ok (has_gateway dev) no_device e in
      let m' = subst (λ q. In p q.read_points) same m in
      elim (Bool-cases (is_modbus_protocol dev.device_protocol)) [
        | inl modbus_named ↦ (parse_slave_id fl vs dev, (rw modbus_named at m'))
        | inr other_named ↦ absurd (rw other_named at m')
      ]

  -- Each read point of a device that is built, whose data type is explicit and whose quantity fits 16
  -- bits, is decoded without a panic, whatever the device sends.
  pub read_points-ne-panic :
      (dev : DeviceConfig Raw) (rt : DeviceRuntime Raw) (p : ModbusReadPoint) (payload : List ℕ)
      → build_device_runtime fl js vs dev ≡ ok rt
      → In p rt.read_points
      → p.info.explicit ≡ true
      → FitsSigned (2 ^ 16) p.quantity
      → decode_register_value fl (param_of p) payload ≢ panic
  read_points-ne-panic dev rt p payload e m explicit fits =
      let (slave_id, m') = read_points-In dev rt p e m in
      let (known, wide) = explicit-Readable js dev slave_id p m' explicit in
      decode-ne-panic fl (param_of p) payload (
        unfold param_of quantity_for_param in
        rw explicit (
          quantity_of_enough p.quantity _ (required_register_count p.info.data_type) fits wide
            (same_width-has_key register_read_types p.info.data_type read_types_same_width known)))
