-- ===== src/Protocol/Points/Checked.antt =====
-- What the check of a Modbus read point establishes.
use multiple_protocol_contro.Common.{Bool, Bool-cases, In, List, Text, [], ap, arith, codes}
use multiple_protocol_contro.Common.{false, inl, inr, not, refl, sym, text_eq, text_eq→eq}
use multiple_protocol_contro.Common.{to_upper, trim_space, true, ◌==◌, ◌||◌, ◌∙◌, ◌∷◌, ◌≡◌}
use multiple_protocol_contro.Common.Int.{negsuc, pos, ℤ}
use multiple_protocol_contro.Protocol.DataTypes.{canonical, has_key, register_read_types}
use multiple_protocol_contro.Protocol.DataTypes.{supports_modbus_read}
use multiple_protocol_contro.Protocol.Points.{JsonOf, ModbusPoint, ModbusProtocol}
use multiple_protocol_contro.Protocol.Points.{check_modbus_point, is_empty_text, is_too_small}
use multiple_protocol_contro.Protocol.Points.{normalize_all, normalize_modbus_data_type}
use multiple_protocol_contro.Protocol.Points.{parse_modbus, parse_protocol}
use multiple_protocol_contro.Protocol.Points.{required_register_count, supports_modbus}
use multiple_protocol_contro.Protocol.Points.{validate_modbus_points}
use multiple_protocol_contro.Values.{>>=-ok, Result, bad_number, bad_text, of_option, ok}
use multiple_protocol_contro.Values.{ok-injective, require-ok, require_then, unsupported_type}
use multiple_protocol_contro.Values.{wrong_length}
use multiple_protocol_contro.Values.Decimal.{parse_int}
use mathlib.Core.Path.{subst}

module _ {A : Type 0} where
  -- Each point of a list that has passed comes from a point that has.
  pub normalize_all-In :
      (normalize : A → Result A) (points passed : List A) (b : A)
      → normalize_all normalize points ≡ ok passed
      → In b passed
      → (a : A) × In a points × (normalize a ≡ ok b)
  unfolding normalize_all
  normalize_all-In normalize [] passed b e m = absurd (subst (λ l. In b l) (sym (ok-injective e)) m)
  normalize_all-In normalize (a ∷ rest) passed b e m =
      let (first, e_first, e_rest) = >>=-ok (normalize a) _ e in
      let (later, e_later, e_all) = >>=-ok (normalize_all normalize rest) _ e_rest in
      elim (subst (λ l. In b l) (sym (ok-injective e_all)) m) [
        | inl here ↦ (a, inl refl, rw here e_first)
        | inr there ↦
            let (a', m', e') = normalize_all-In normalize rest later b e_later there in
            (a', inr m', e')
      ]

-- A canonical type that can be read, in enough registers where their number is given.
abbrev pub Readable : Text → ℤ → Type 0
Readable data_type quantity =
    (has_key register_read_types data_type ≡ true)
    × (is_too_small quantity (required_register_count data_type) ≡ false)

supports_modbus_read-In :
    (data_type : Text) (fc : ℤ)
    → supports_modbus_read data_type fc ≡ true
    → has_key register_read_types data_type ≡ true
unfolding supports_modbus_read
supports_modbus_read-In data_type (negsuc n) h = absurd cc
supports_modbus_read-In data_type (pos fc) h = elim (Bool-cases (fc == 1 || fc == 2)) [
  | inl coil ↦
      rw (text_eq→eq data_type (codes "bool") (rw coil at h)) (unfold has_key text_eq in refl)
  | inr register ↦ elim (Bool-cases (fc == 3 || fc == 4)) [
    | inl known ↦ (rw (register, known) at h)
    | inr unknown_code ↦ absurd (cc (rw (register, unknown_code) at h))
  ]
]

empty_is_empty : is_empty_text [] ≡ true
unfolding text_eq trim_space
empty_is_empty = refl

not-true : {b : Bool} → not b ≡ true → b ≡ false
not-true e = ground arith

check_modbus_point-Readable :
    (point passed : ModbusPoint)
    → check_modbus_point point true ≡ ok passed
    → Readable passed.data_type passed.quantity
unfolding check_modbus_point supports_modbus
check_modbus_point-Readable point passed e =
    let (data_type, _, e1) = >>=-ok (canonical point.data_type) _ e in
    let (fc, _, e2) =
      >>=-ok (of_option (parse_int (trim_space point.function_code)) bad_number) _ e1 in
    let (supported, e3) = require_then (supports_modbus_read data_type fc) unsupported_type _ e2 in
    let (enough, e4) =
      require-ok (not (is_too_small point.quantity (required_register_count data_type)))
        wrong_length e3 in
    rw e4 (supports_modbus_read-In data_type fc supported, not-true enough)

pub checked-Readable :
    (point passed : ModbusPoint)
    → normalize_modbus_data_type true point ≡ ok passed
    → is_empty_text passed.data_type ≡ false
    → Readable passed.data_type passed.quantity
unfolding normalize_modbus_data_type
checked-Readable point passed e explicit = elim (Bool-cases (is_empty_text point.data_type)) [
  | inl unset ↦
      absurd
        (cc (ap (λ q. is_empty_text q.data_type) (ok-injective (rw unset at e)), empty_is_empty))
  | inr given ↦ check_modbus_point-Readable point passed (rw given at e)
]

-- The read points of a parsed property are the normal forms of the configured ones.
pub parse_modbus-read :
    {Raw : Type 0} (js : JsonOf Raw) (raw : Raw) (cfg : ModbusProtocol)
    → parse_modbus js raw ≡ ok cfg
    → (points : List ModbusPoint) × (normalize_all (normalize_modbus_data_type true) points
        ≡ ok cfg.read)
unfolding parse_modbus parse_protocol validate_modbus_points
parse_modbus-read js raw cfg e =
    let (base, _, e1) = >>=-ok (of_option (js.type_of raw) bad_text) _ e in
    let (_, e2) =
      require_then (text_eq (to_upper (trim_space base)) (codes "MODBUS_RTU")) unsupported_type _
        e1 in
    let (decoded, _, e3) = >>=-ok (of_option (js.modbus_of raw) bad_text) _ e2 in
    let (reads, e4, e5) =
      >>=-ok (normalize_all (normalize_modbus_data_type true) decoded.read) _ e3 in
    let (writes, _, e6) =
      >>=-ok (normalize_all (normalize_modbus_data_type false) decoded.write) _ e5 in
    (decoded.read, e4 ∙ ap (λ q. ok q.read) (ok-injective e6))
