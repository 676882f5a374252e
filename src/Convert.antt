-- ===== src/Convert.antt =====
-- Conversions of values to configured data types: internal/protocol/bacnet/encodeCommand.go and
-- internal/protocol/opcua/encodeCommand.go, whose integer cases internal/control/control.go and
-- internal/collector/mqtt.go repeat.
pub mod Command
pub mod Mqtt
pub mod Typed
mod Tests
use multiple_protocol_contro.Common.{Bool, Text, [], codes, if◌then◌else◌, ltb, switch, to_lower}
use multiple_protocol_contro.Common.{trim_space, ℕ, ◌^◌, ◌∷◌}
use multiple_protocol_contro.Common.Int.{fits_signed, pos}
use multiple_protocol_contro.Values.{Floats, IntKind, Result, Value, ValueOf, err, integer, ok}
use multiple_protocol_contro.Values.{out_of_range, require, text, unsupported_type, ◌>>=◌, ◌>>◌}
use multiple_protocol_contro.Values.Coerce.{coerce_bool, coerce_exact_int64, coerce_exact_uint64}
use multiple_protocol_contro.Values.Coerce.{coerce_float32, coerce_float64, coerce_int32}
use multiple_protocol_contro.Values.Coerce.{legacy_json_number_value}

-- The case labels of the switches on a data type.
pub data PointType : Type 0 where
  bool_type int8_type int16_type int32_type int64_type : PointType
  uint8_type uint16_type uint32_type uint64_type : PointType
  float32_type float64_type string_type : PointType
  int_type uint_type enum_type float_type double_type no_type other_type : PointType

unfoldable pub point_type : Text → PointType
point_type data_type =
    switch
      ((codes "bool", bool_type)
        ∷ (codes "int8", int8_type)
        ∷ (codes "int16", int16_type)
        ∷ (codes "int32", int32_type)
        ∷ (codes "int64", int64_type)
        ∷ (codes "uint8", uint8_type)
        ∷ (codes "uint16", uint16_type)
        ∷ (codes "uint32", uint32_type)
        ∷ (codes "uint64", uint64_type)
        ∷ (codes "float32", float32_type)
        ∷ (codes "float64", float64_type)
        ∷ (codes "string", string_type)
        ∷ (codes "int", int_type)
        ∷ (codes "uint", uint_type)
        ∷ (codes "enum", enum_type)
        ∷ (codes "float", float_type)
        ∷ (codes "double", double_type)
        ∷ (codes "", no_type)
        ∷ [])
      other_type (to_lower (trim_space data_type))

module _ (fl : Floats) where
  unfoldable pub coerce_signed : IntKind → ℕ → ValueOf fl → Result (ValueOf fl)
  coerce_signed k half v = do
    n ← coerce_exact_int64 fl v
    require (fits_signed half n) out_of_range
    ok (integer k n)

  unfoldable pub coerce_unsigned : IntKind → ℕ → ValueOf fl → Result (ValueOf fl)
  coerce_unsigned k bound v = do
    n ← coerce_exact_uint64 fl v
    require (ltb n bound) out_of_range
    ok (integer k (pos n))

  -- The cases of the eight canonical integer types, the same in every switch.
  unfoldable pub exact_integer : PointType → ValueOf fl → Result (ValueOf fl)
  exact_integer int8_type v = coerce_signed IntKind.int8 (2 ^ 7) v
  exact_integer int16_type v = coerce_signed IntKind.int16 (2 ^ 15) v
  exact_integer int32_type v = coerce_signed IntKind.int32 (2 ^ 31) v
  exact_integer int64_type v = coerce_exact_int64 fl v >>= λ n. ok (integer IntKind.int64 n)
  exact_integer uint8_type v = coerce_unsigned IntKind.uint8 (2 ^ 8) v
  exact_integer uint16_type v = coerce_unsigned IntKind.uint16 (2 ^ 16) v
  exact_integer uint32_type v = coerce_unsigned IntKind.uint32 (2 ^ 32) v
  exact_integer uint64_type v =
      coerce_exact_uint64 fl v >>= λ n. ok (integer IntKind.uint64 (pos n))
  exact_integer _ v = err unsupported_type

  abbrev pub float32_value : ValueOf fl → Result (ValueOf fl)
  float32_value v = coerce_float32 fl v >>= λ f. ok (Value.float32 f)

  abbrev pub float64_value : ValueOf fl → Result (ValueOf fl)
  float64_value v = coerce_float64 fl v >>= λ f. ok (Value.float64 f)

  abbrev pub int32_value : ValueOf fl → Result (ValueOf fl)
  int32_value v = coerce_int32 fl v >>= λ n. ok (integer IntKind.int32 n)

  abbrev pub bool_value : ValueOf fl → Result (ValueOf fl)
  bool_value v = coerce_bool fl v >>= λ b. ok (Value.bool b)

  -- NormalizeValue and NormalizeValueExplicit of package bacnet.
  unfoldable pub bacnet_legacy : PointType → ValueOf fl → Result (ValueOf fl)
  bacnet_legacy float_type v = float32_value v
  bacnet_legacy int_type v = int32_value v
  bacnet_legacy enum_type v = int32_value v
  bacnet_legacy bool_type v = bool_value v
  bacnet_legacy _ v = err unsupported_type

  unfoldable pub bacnet_explicit : PointType → ValueOf fl → Result (ValueOf fl)
  bacnet_explicit float_type v = float32_value v
  bacnet_explicit float32_type v = float32_value v
  bacnet_explicit float64_type v = float64_value v
  bacnet_explicit int_type v = int32_value v
  bacnet_explicit enum_type v = int32_value v
  bacnet_explicit bool_type v = bool_value v
  bacnet_explicit t v = exact_integer t v

  -- CoerceString, and NormalizeValue and NormalizeValueExplicit of package opcua; `sprint` is fmt.Sprint.
  abbrev pub string_value : (ValueOf fl → Text) → ValueOf fl → Result (ValueOf fl)
  string_value sprint (text s) = ok (text s)
  string_value sprint v = ok (text (sprint v))

  unfoldable pub opcua_legacy : (ValueOf fl → Text) → PointType → ValueOf fl → Result (ValueOf fl)
  opcua_legacy sprint bool_type v = bool_value v
  opcua_legacy sprint int_type v = int32_value v
  opcua_legacy sprint enum_type v = int32_value v
  opcua_legacy sprint float_type v = float32_value v
  opcua_legacy sprint string_type v = string_value sprint v
  opcua_legacy sprint _ v = ok v

  unfoldable pub opcua_explicit : (ValueOf fl → Text) → PointType → ValueOf fl → Result (ValueOf fl)
  opcua_explicit sprint bool_type v = bool_value v
  opcua_explicit sprint int_type v = int32_value v
  opcua_explicit sprint enum_type v = int32_value v
  opcua_explicit sprint float_type v = float32_value v
  opcua_explicit sprint float32_type v = float32_value v
  opcua_explicit sprint float64_type v = float64_value v
  opcua_explicit sprint string_type v = string_value sprint v
  opcua_explicit sprint uint_type v = ok v
  opcua_explicit sprint double_type v = ok v
  opcua_explicit sprint no_type v = ok v
  opcua_explicit sprint other_type v = ok v
  opcua_explicit sprint t v = exact_integer t v

  -- normalizeBacnetCommandValue and normalizeOpcuaCommandValue of internal/control/control.go.
  unfoldable pub normalize_bacnet_command_value : ValueOf fl → Text → Bool → Result (ValueOf fl)
  normalize_bacnet_command_value v data_type explicit =
      if explicit
      then bacnet_explicit (point_type data_type) v
      else bacnet_legacy (point_type data_type) (legacy_json_number_value fl v)

  unfoldable pub normalize_opcua_command_value :
      (ValueOf fl → Text) → ValueOf fl → Text → Bool → Result (ValueOf fl)
  normalize_opcua_command_value sprint v data_type explicit =
      if explicit
      then opcua_explicit sprint (point_type data_type) v
      else opcua_legacy sprint (point_type data_type) (legacy_json_number_value fl v)
