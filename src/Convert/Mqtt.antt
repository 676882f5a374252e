-- ===== src/Convert/Mqtt.antt =====
-- normalizeMqttValue of internal/collector/mqtt.go.
-- json.Unmarshal of a text into a number type, and fmt.Sprintf with %v. Nothing is assumed of them.
use multiple_protocol_contro.Common.{Bool, Option, Text, [], codes, false, if◌then◌else◌, not}
use multiple_protocol_contro.Common.{switch, to_lower, true, ℕ, ◌&&◌, ◌==◌, ◌||◌, ◌∷◌}
use multiple_protocol_contro.Common.Int.{neg_part, negsuc, pos, pos_part, ℤ}
use multiple_protocol_contro.Convert.{PointType, bool_type, double_type, exact_integer}
use multiple_protocol_contro.Convert.{float32_type, float64_type, float_type, int16_type}
use multiple_protocol_contro.Convert.{int32_type, int64_type, int8_type, int_type, no_type}
use multiple_protocol_contro.Convert.{point_type, string_type, uint16_type, uint32_type}
use multiple_protocol_contro.Convert.{uint64_type, uint8_type, uint_type}
use multiple_protocol_contro.Values.{Floats, IntKind, Result, Value, ValueOf, bad_bool}
use multiple_protocol_contro.Values.{bad_number, err, integer, negative, nil, not_finite, number}
use multiple_protocol_contro.Values.{of_option, ok, panic, require, text, unsupported_type, ◌>>=◌}
use multiple_protocol_contro.Values.{◌>>◌}
use multiple_protocol_contro.Values.Coerce.{coerce_float64, legacy_json_number_value}

pub record JsonTexts (fl : Floats) : Type 0 where
  pub json_float : Text → Option fl.F64
  pub json_int : Text → Option ℤ
  pub json_uint : Text → Option ℕ
  pub sprintf : ValueOf fl → Text

module _ (fl : Floats) (jt : JsonTexts fl) where
  unfoldable pub to_float64 : ValueOf fl → Result fl.F64
  to_float64 (Value.float64 f) = ok f
  to_float64 (Value.float32 f) = ok (fl.widen f)
  to_float64 (integer IntKind.int64 n) = ok (fl.of_int n)
  to_float64 (integer IntKind.int n) = ok (fl.of_int n)
  to_float64 (integer IntKind.int32 n) = ok (fl.of_int n)
  to_float64 (integer IntKind.uint64 n) = ok (fl.of_int n)
  to_float64 (integer IntKind.uint n) = ok (fl.of_int n)
  to_float64 (text s) = of_option (jt.json_float s) bad_number
  to_float64 v = err unsupported_type

  unfoldable pub to_int64 : ValueOf fl → Result ℤ
  to_int64 (integer IntKind.int64 n) = ok n
  to_int64 (integer IntKind.int n) = ok n
  to_int64 (integer IntKind.int32 n) = ok n
  to_int64 (Value.float64 f) = ok (fl.to_int64 f)
  to_int64 (number s) = of_option (fl.parse s) bad_number >>= λ f. ok (fl.to_int64 f)
  to_int64 (text s) = of_option (jt.json_int s) bad_number
  to_int64 v = err unsupported_type

  abbrev pub natural : ℤ → Result ℕ
  natural (pos n) = ok n
  natural (negsuc n) = err negative

  -- `val >= 0` of a float, where it is a number, is `not (val < 0)`.
  abbrev pub natural_float : fl.F64 → Result ℕ
  natural_float f = if fl.is_below_zero f || fl.is_nan f then err negative else ok (fl.to_uint64 f)

  unfoldable pub to_uint64 : ValueOf fl → Result ℕ
  to_uint64 (integer IntKind.uint64 n) = ok (pos_part n)
  to_uint64 (integer IntKind.uint n) = ok (pos_part n)
  to_uint64 (integer IntKind.int64 n) = natural n
  to_uint64 (integer IntKind.int n) = natural n
  to_uint64 (Value.float64 f) = natural_float f
  to_uint64 (number s) = of_option (fl.parse s) bad_number >>= λ f.
      if fl.is_below_zero f then err negative else ok (fl.to_uint64 f)
  to_uint64 (text s) = of_option (jt.json_uint s) bad_number
  to_uint64 v = err unsupported_type

  abbrev pub is_zero_int : ℤ → Bool
  is_zero_int n = pos_part n == 0 && neg_part n == 0

  unfoldable pub bool_of_word : Text → Result Bool
  bool_of_word s =
      switch
        ((codes "true", ok true)
          ∷ (codes "1", ok true)
          ∷ (codes "yes", ok true)
          ∷ (codes "false", ok false)
          ∷ (codes "0", ok false)
          ∷ (codes "no", ok false)
          ∷ [])
        (err bad_bool) (to_lower s)

  unfoldable pub to_bool : ValueOf fl → Result Bool
  to_bool (Value.bool b) = ok b
  to_bool (integer IntKind.int64 n) = ok (not (is_zero_int n))
  to_bool (integer IntKind.int n) = ok (not (is_zero_int n))
  to_bool (Value.float64 f) = ok (not (fl.is_zero f))
  to_bool (number s) = of_option (fl.parse s) bad_number >>= λ f. ok (not (fl.is_zero f))
  to_bool (text s) = bool_of_word s
  to_bool v = err unsupported_type

  -- The first switch: a value that has the type already.
  unfoldable pub has_type : PointType → ValueOf fl → Bool
  has_type float_type (Value.float64 f) = true
  has_type double_type (Value.float64 f) = true
  has_type int_type (integer IntKind.int64 n) = true
  has_type int32_type (integer IntKind.int64 n) = true
  has_type int64_type (integer IntKind.int64 n) = true
  has_type uint_type (integer IntKind.uint64 n) = true
  has_type uint32_type (integer IntKind.uint64 n) = true
  has_type uint64_type (integer IntKind.uint64 n) = true
  has_type bool_type (Value.bool b) = true
  has_type string_type (text s) = true
  has_type t v = false

  abbrev pub float_result : ValueOf fl → Result (ValueOf fl)
  float_result v = to_float64 v >>= λ f. ok (Value.float64 f)

  abbrev pub int_result : ValueOf fl → Result (ValueOf fl)
  int_result v = to_int64 v >>= λ n. ok (integer IntKind.int64 n)

  abbrev pub uint_result : ValueOf fl → Result (ValueOf fl)
  uint_result v = to_uint64 v >>= λ n. ok (integer IntKind.uint64 (pos n))

  abbrev pub bool_result : ValueOf fl → Result (ValueOf fl)
  bool_result v = to_bool v >>= λ b. ok (Value.bool b)

  -- The default case: a number where it is one, else a bool, else its text.
  unfoldable pub first_ok : Result (ValueOf fl) → Result (ValueOf fl) → Result (ValueOf fl)
  first_ok (ok v) later = ok v
  first_ok (err e) later = later
  first_ok panic later = panic

  unfoldable pub guess : ValueOf fl → Result (ValueOf fl)
  guess v = first_ok (float_result v) (first_ok (bool_result v) (ok (text (jt.sprintf v))))

  unfoldable pub loose_value : PointType → ValueOf fl → Result (ValueOf fl)
  loose_value float_type v = float_result v
  loose_value double_type v = float_result v
  loose_value int_type v = int_result v
  loose_value uint_type v = uint_result v
  loose_value bool_type v = bool_result v
  loose_value string_type v = ok (text (jt.sprintf v))
  loose_value t v = guess v

  unfoldable pub mqtt_legacy_value : PointType → ValueOf fl → Result (ValueOf fl)
  mqtt_legacy_value int32_type v = int_result v
  mqtt_legacy_value int64_type v = int_result v
  mqtt_legacy_value uint32_type v = uint_result v
  mqtt_legacy_value uint64_type v = uint_result v
  mqtt_legacy_value t v = loose_value t v

  unfoldable pub mqtt_explicit_value : PointType → ValueOf fl → Result (ValueOf fl)
  mqtt_explicit_value int8_type v = exact_integer fl int8_type v
  mqtt_explicit_value int16_type v = exact_integer fl int16_type v
  mqtt_explicit_value int32_type v = exact_integer fl int32_type v
  mqtt_explicit_value int64_type v = exact_integer fl int64_type v
  mqtt_explicit_value uint8_type v = exact_integer fl uint8_type v
  mqtt_explicit_value uint16_type v = exact_integer fl uint16_type v
  mqtt_explicit_value uint32_type v = exact_integer fl uint32_type v
  mqtt_explicit_value uint64_type v = exact_integer fl uint64_type v
  mqtt_explicit_value float32_type v = do
    f ← coerce_float64 fl v
    require (not (fl.is_nan f || (fl.is_inf f || fl.is_inf (fl.widen (fl.narrow f))))) not_finite
    ok (Value.float32 (fl.narrow f))
  mqtt_explicit_value float64_type v = do
    f ← coerce_float64 fl v
    require (not (fl.is_nan f || fl.is_inf f)) not_finite
    ok (Value.float64 f)
  mqtt_explicit_value t v = loose_value t v

  -- A value that has its type is returned as it is, and so is any where no type is named.
  unfoldable pub unless_typed :
      (PointType → ValueOf fl → Result (ValueOf fl)) → PointType → ValueOf fl → Result (ValueOf fl)
  unless_typed convert no_type v = ok v
  unless_typed convert t v = if has_type t v then ok v else convert t v

  unfoldable pub normalize_mqtt_value : ValueOf fl → Text → Bool → Result (ValueOf fl)
  normalize_mqtt_value nil data_type explicit = err unsupported_type
  normalize_mqtt_value v data_type explicit =
      if explicit
      then unless_typed mqtt_explicit_value (point_type data_type) v
      else unless_typed mqtt_legacy_value (point_type data_type) (legacy_json_number_value fl v)
