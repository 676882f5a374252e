-- ===== src/Convert/Typed.antt =====
-- What the conversions to the canonical integer types give.
use multiple_protocol_contro.Common.{Bool-cases, Option, Text, arith, inl, inr, ltb, ltb→lt, none}
use multiple_protocol_contro.Common.{refl, some, sym, true, ℕ, ◌<◌, ◌^◌, ◌∙◌, ◌≡◌, ◌⊎◌}
use multiple_protocol_contro.Common.Int.{FitsSigned, fits_signed, negsuc, pos, ℤ}
use multiple_protocol_contro.Convert.{PointType, bacnet_explicit, coerce_signed, coerce_unsigned}
use multiple_protocol_contro.Convert.{exact_integer, int16_type, int32_type, int64_type}
use multiple_protocol_contro.Convert.{int8_type, no_type, normalize_bacnet_command_value}
use multiple_protocol_contro.Convert.{normalize_opcua_command_value, opcua_explicit, point_type}
use multiple_protocol_contro.Convert.{uint16_type, uint32_type, uint64_type, uint8_type}
use multiple_protocol_contro.Convert.Command.{Scans, command_explicit, normalize_command_value}
use multiple_protocol_contro.Convert.Mqtt.{JsonTexts, has_type, mqtt_explicit_value}
use multiple_protocol_contro.Convert.Mqtt.{normalize_mqtt_value, unless_typed}
use multiple_protocol_contro.Values.{>>=-ok, FloatLaws, Floats, InRange, IntKind, Result, ValueOf}
use multiple_protocol_contro.Values.{integer, map-ok, nil, ok, out_of_range, require-ok}
use multiple_protocol_contro.Values.Coerce.{coerce_exact_int64, coerce_exact_uint64}
use multiple_protocol_contro.Values.Coerce.Exact.{IsTyped, coerce_exact_int64_range}
use multiple_protocol_contro.Values.Coerce.Exact.{coerce_exact_uint64_range}
use mathlib.Core.Path.{subst}

pub data Conversion : Type 0 where
  to_bacnet to_opcua to_mqtt from_mqtt : Conversion

unfoldable pub integer_kind : PointType → Option IntKind
integer_kind int8_type = some IntKind.int8
integer_kind int16_type = some IntKind.int16
integer_kind int32_type = some IntKind.int32
integer_kind int64_type = some IntKind.int64
integer_kind uint8_type = some IntKind.uint8
integer_kind uint16_type = some IntKind.uint16
integer_kind uint32_type = some IntKind.uint32
integer_kind uint64_type = some IntKind.uint64
integer_kind _ = none

some-injective : {A : Type 0} {a b : A} → some a ≡ some b → a ≡ b
some-injective e = cc

-- The test and the predicate.
fits_signed-Fits : (half : ℕ) (n : ℤ) → fits_signed half n ≡ true → FitsSigned half n
fits_signed-Fits half (pos n) h = ground arith
fits_signed-Fits half (negsuc n) h = ground arith

-- A value of the integer type, in its range.
abbrev pub TypedAs : (fl : Floats) → IntKind → ValueOf fl → Type 0
TypedAs fl k v = (n : ℤ) × (v ≡ integer k n) × InRange k n

module _ (fl : Floats) where
  bacnet_explicit-exact_integer :
      (t : PointType) (k : IntKind) (v : ValueOf fl)
      → integer_kind t ≡ some k
      → bacnet_explicit fl t v ≡ exact_integer fl t v
  unfolding bacnet_explicit integer_kind
  bacnet_explicit-exact_integer int8_type k v h = refl
  bacnet_explicit-exact_integer int16_type k v h = refl
  bacnet_explicit-exact_integer int32_type k v h = refl
  bacnet_explicit-exact_integer int64_type k v h = refl
  bacnet_explicit-exact_integer uint8_type k v h = refl
  bacnet_explicit-exact_integer uint16_type k v h = refl
  bacnet_explicit-exact_integer uint32_type k v h = refl
  bacnet_explicit-exact_integer uint64_type k v h = refl
  bacnet_explicit-exact_integer _ k v h = absurd cc

  opcua_explicit-exact_integer :
      (sprint : ValueOf fl → Text) (t : PointType) (k : IntKind) (v : ValueOf fl)
      → integer_kind t ≡ some k
      → opcua_explicit fl sprint t v ≡ exact_integer fl t v
  unfolding opcua_explicit integer_kind
  opcua_explicit-exact_integer sprint int8_type k v h = refl
  opcua_explicit-exact_integer sprint int16_type k v h = refl
  opcua_explicit-exact_integer sprint int32_type k v h = refl
  opcua_explicit-exact_integer sprint int64_type k v h = refl
  opcua_explicit-exact_integer sprint uint8_type k v h = refl
  opcua_explicit-exact_integer sprint uint16_type k v h = refl
  opcua_explicit-exact_integer sprint uint32_type k v h = refl
  opcua_explicit-exact_integer sprint uint64_type k v h = refl
  opcua_explicit-exact_integer sprint _ k v h = absurd cc

  command_explicit-exact_integer :
      (sc : Scans fl) (t : PointType) (k : IntKind) (v : ValueOf fl)
      → integer_kind t ≡ some k
      → command_explicit fl sc t v ≡ exact_integer fl t v
  unfolding command_explicit integer_kind
  command_explicit-exact_integer sc int8_type k v h = refl
  command_explicit-exact_integer sc int16_type k v h = refl
  command_explicit-exact_integer sc int32_type k v h = refl
  command_explicit-exact_integer sc int64_type k v h = refl
  command_explicit-exact_integer sc uint8_type k v h = refl
  command_explicit-exact_integer sc uint16_type k v h = refl
  command_explicit-exact_integer sc uint32_type k v h = refl
  command_explicit-exact_integer sc uint64_type k v h = refl
  command_explicit-exact_integer sc _ k v h = absurd cc

  mqtt_explicit_value-exact_integer :
      (jt : JsonTexts fl) (t : PointType) (k : IntKind) (v : ValueOf fl)
      → integer_kind t ≡ some k
      → mqtt_explicit_value fl jt t v ≡ exact_integer fl t v
  unfolding mqtt_explicit_value integer_kind
  mqtt_explicit_value-exact_integer jt int8_type k v h = refl
  mqtt_explicit_value-exact_integer jt int16_type k v h = refl
  mqtt_explicit_value-exact_integer jt int32_type k v h = refl
  mqtt_explicit_value-exact_integer jt int64_type k v h = refl
  mqtt_explicit_value-exact_integer jt uint8_type k v h = refl
  mqtt_explicit_value-exact_integer jt uint16_type k v h = refl
  mqtt_explicit_value-exact_integer jt uint32_type k v h = refl
  mqtt_explicit_value-exact_integer jt uint64_type k v h = refl
  mqtt_explicit_value-exact_integer jt _ k v h = absurd cc

  -- The value is taken as it is, since it passes the test for a value that has its type.
  abbrev pub PassedThrough : JsonTexts fl → PointType → ValueOf fl → ValueOf fl → Type 0
  PassedThrough jt t v r = (has_type fl jt t v ≡ true) × (r ≡ v)

  unless_typed-convert :
      (jt : JsonTexts fl) (convert : PointType → ValueOf fl → Result (ValueOf fl)) (t : PointType)
      (k : IntKind) (v r : ValueOf fl)
      → integer_kind t ≡ some k
      → unless_typed fl jt convert t v ≡ ok r
      → (convert t v ≡ ok r) ⊎ PassedThrough jt t v r
  unfolding unless_typed integer_kind
  unless_typed-convert jt convert no_type k v r h e = absurd cc
  unless_typed-convert jt convert t k v r h e = elim (Bool-cases (has_type fl jt t v)) [
    | inl same ↦ inr (same, cc (rw same at e))
    | inr differs ↦ inl (rw differs at e)
  ]

  mqtt_converted :
      (jt : JsonTexts fl) (dt : Text) (k : IntKind) (v r : ValueOf fl)
      → integer_kind (point_type dt) ≡ some k
      → normalize_mqtt_value fl jt v dt true ≡ ok r
      → (mqtt_explicit_value fl jt (point_type dt) v ≡ ok r) ⊎ PassedThrough jt (point_type dt) v r
  unfolding normalize_mqtt_value
  mqtt_converted jt dt k nil r h e = absurd cc
  mqtt_converted jt dt k v r h e =
      unless_typed-convert jt (mqtt_explicit_value fl jt) (point_type dt) k v r h e

module _ (fl : Floats) (laws : FloatLaws fl) where
  coerce_signed-TypedAs :
      (k : IntKind) (half : ℕ) (v r : ValueOf fl)
      → ((n : ℤ) → FitsSigned half n → InRange k n)
      → coerce_signed fl k half v ≡ ok r
      → TypedAs fl k r
  unfolding coerce_signed
  coerce_signed-TypedAs k half v r range e =
      let (n, _, e1) = >>=-ok (coerce_exact_int64 fl v) _ e in
      let (fits, same) = require-ok (fits_signed half n) out_of_range e1 in
      (n, same, range n (fits_signed-Fits half n fits))

  coerce_unsigned-TypedAs :
      (k : IntKind) (bound : ℕ) (v r : ValueOf fl)
      → ((n : ℕ) → n < bound → InRange k (pos n))
      → coerce_unsigned fl k bound v ≡ ok r
      → TypedAs fl k r
  unfolding coerce_unsigned
  coerce_unsigned-TypedAs k bound v r range e =
      let (n, _, e1) = >>=-ok (coerce_exact_uint64 fl v) _ e in
      let (below_bound, same) = require-ok (ltb n bound) out_of_range e1 in
      (pos n, same, range n (ltb→lt n bound below_bound))

  exact_integer-TypedAs :
      (t : PointType) (k : IntKind) (v r : ValueOf fl)
      → IsTyped v
      → integer_kind t ≡ some k
      → exact_integer fl t v ≡ ok r
      → TypedAs fl k r
  unfolding exact_integer integer_kind
  exact_integer-TypedAs int8_type k v r typed h e =
      subst (λ j. TypedAs fl j r) (some-injective h)
        (coerce_signed-TypedAs IntKind.int8 (2 ^ 7) v r (λ n f. f) e)
  exact_integer-TypedAs int16_type k v r typed h e =
      subst (λ j. TypedAs fl j r) (some-injective h)
        (coerce_signed-TypedAs IntKind.int16 (2 ^ 15) v r (λ n f. f) e)
  exact_integer-TypedAs int32_type k v r typed h e =
      subst (λ j. TypedAs fl j r) (some-injective h)
        (coerce_signed-TypedAs IntKind.int32 (2 ^ 31) v r (λ n f. f) e)
  exact_integer-TypedAs int64_type k v r typed h e =
      let (n, e1, same) = map-ok (coerce_exact_int64 fl v) (λ n. integer IntKind.int64 n) e in
      subst (λ j. TypedAs fl j r) (some-injective h)
        (n, same, coerce_exact_int64_range fl laws v n typed e1)
  exact_integer-TypedAs uint8_type k v r typed h e =
      subst (λ j. TypedAs fl j r) (some-injective h)
        (coerce_unsigned-TypedAs IntKind.uint8 (2 ^ 8) v r (λ n f. f) e)
  exact_integer-TypedAs uint16_type k v r typed h e =
      subst (λ j. TypedAs fl j r) (some-injective h)
        (coerce_unsigned-TypedAs IntKind.uint16 (2 ^ 16) v r (λ n f. f) e)
  exact_integer-TypedAs uint32_type k v r typed h e =
      subst (λ j. TypedAs fl j r) (some-injective h)
        (coerce_unsigned-TypedAs IntKind.uint32 (2 ^ 32) v r (λ n f. f) e)
  exact_integer-TypedAs uint64_type k v r typed h e =
      let (n, e1, same) =
        map-ok (coerce_exact_uint64 fl v) (λ n. integer IntKind.uint64 (pos n)) e in
      subst (λ j. TypedAs fl j r) (some-injective h)
        (pos n, same, coerce_exact_uint64_range fl laws v n typed e1)
  exact_integer-TypedAs _ k v r typed h e = absurd cc

  -- The conversions of a command to BACnet, OPC UA and MQTT, and of a collected MQTT value, by their
  -- explicit type name.
  abbrev pub convert_by :
      (ValueOf fl → Text)
      → Scans fl
      → JsonTexts fl
      → Conversion
      → Text
      → ValueOf fl
      → Result (ValueOf fl)
  convert_by sprint sc jt to_bacnet dt v = normalize_bacnet_command_value fl v dt true
  convert_by sprint sc jt to_opcua dt v = normalize_opcua_command_value fl sprint v dt true
  convert_by sprint sc jt to_mqtt dt v = normalize_command_value fl sc dt true v
  convert_by sprint sc jt from_mqtt dt v = normalize_mqtt_value fl jt v dt true

  -- What comes of a conversion: a collected MQTT value may also be taken as it is.
  abbrev pub Converted :
      JsonTexts fl → Conversion → PointType → IntKind → ValueOf fl → ValueOf fl → Type 0
  Converted jt to_bacnet t k v r = TypedAs fl k r
  Converted jt to_opcua t k v r = TypedAs fl k r
  Converted jt to_mqtt t k v r = TypedAs fl k r
  Converted jt from_mqtt t k v r = TypedAs fl k r ⊎ PassedThrough fl jt t v r

  -- A value of a command that is converted to an explicit integer type has the Go type of that name and
  -- fits it, whatever the value was, for BACnet, OPC UA and MQTT. A collected MQTT value is so converted too,
  -- or is taken as it is, since the test for a value that has its type accepts it.
  pub convert-Converted :
      (sprint : ValueOf fl → Text) (sc : Scans fl) (jt : JsonTexts fl) (by : Conversion) (dt : Text)
      (k : IntKind) (v r : ValueOf fl)
      → IsTyped v
      → integer_kind (point_type dt) ≡ some k
      → convert_by sprint sc jt by dt v ≡ ok r
      → Converted jt by (point_type dt) k v r
  unfolding normalize_bacnet_command_value normalize_opcua_command_value normalize_command_value
  convert-Converted sprint sc jt to_bacnet dt k v r typed h e =
      exact_integer-TypedAs (point_type dt) k v r typed h
        (sym (bacnet_explicit-exact_integer fl (point_type dt) k v h) ∙ e)
  convert-Converted sprint sc jt to_opcua dt k v r typed h e =
      exact_integer-TypedAs (point_type dt) k v r typed h
        (sym (opcua_explicit-exact_integer fl sprint (point_type dt) k v h) ∙ e)
  convert-Converted sprint sc jt to_mqtt dt k v r typed h e =
      exact_integer-TypedAs (point_type dt) k v r typed h
        (sym (command_explicit-exact_integer fl sc (point_type dt) k v h) ∙ e)
  convert-Converted sprint sc jt from_mqtt dt k v r typed h e =
      elim (mqtt_converted fl jt dt k v r h e) [
        | inl converted ↦ inl (
            exact_integer-TypedAs (point_type dt) k v r typed h
              (sym (mqtt_explicit_value-exact_integer fl jt (point_type dt) k v h) ∙ converted))
        | inr passed ↦ inr passed
      ]
