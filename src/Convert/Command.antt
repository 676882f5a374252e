-- ===== src/Convert/Command.antt =====
-- normalizeCommandValue and normalizeCommandValueLegacy of internal/control/control.go.
-- fmt.Sscanf with %d and %f. Nothing is assumed of them.
use multiple_protocol_contro.Common.{Bool, Option, Text, codes, if◌then◌else◌, none, not, some}
use multiple_protocol_contro.Common.{text_eq, to_lower, ◌||◌}
use multiple_protocol_contro.Common.Int.{ℤ}
use multiple_protocol_contro.Convert.{PointType, bool_type, double_type, enum_type, exact_integer}
use multiple_protocol_contro.Convert.{float32_type, float64_type, float_type, int32_type}
use multiple_protocol_contro.Convert.{int64_type, int_type, no_type, other_type, point_type}
use multiple_protocol_contro.Convert.{string_type, uint_type}
use multiple_protocol_contro.Values.{Floats, IntKind, Result, Value, ValueOf, bad_number, integer}
use multiple_protocol_contro.Values.{not_finite, number, of_option, ok, require, text, ◌>>=◌}
use multiple_protocol_contro.Values.{◌>>◌}
use multiple_protocol_contro.Values.Coerce.{coerce_float64, legacy_json_number_value}

pub record Scans (fl : Floats) : Type 0 where
  pub scan_int : Text → Option ℤ
  pub scan_float : Text → Option fl.F64

module _ (fl : Floats) (sc : Scans fl) where
  abbrev is_true_text : Text → Bool
  is_true_text s = text_eq (to_lower s) (codes "true") || text_eq s (codes "1")

  unfoldable pub command_bool : ValueOf fl → Result (ValueOf fl)
  command_bool (text s) = ok (Value.bool (is_true_text s))
  command_bool (Value.float64 f) = ok (Value.bool (not (fl.is_zero f)))
  command_bool (number s) =
      of_option (fl.parse s) bad_number >>= λ f. ok (Value.bool (not (fl.is_zero f)))
  command_bool v = ok v

  -- A conversion that leaves the value alone where it fails.
  abbrev pub or_same : Option (ValueOf fl) → ValueOf fl → ValueOf fl
  or_same none v = v
  or_same (some w) v = w

  abbrev pub as_int : Option ℤ → Option (ValueOf fl)
  as_int none = none
  as_int (some n) = some (integer IntKind.int64 n)

  abbrev pub as_float : Option fl.F64 → Option (ValueOf fl)
  as_float none = none
  as_float (some f) = some (Value.float64 f)

  abbrev pub float_to_int : Option fl.F64 → Option (ValueOf fl)
  float_to_int none = none
  float_to_int (some f) = some (integer IntKind.int64 (fl.to_int64 f))

  unfoldable pub command_int : ValueOf fl → ValueOf fl
  command_int (Value.float64 f) = integer IntKind.int64 (fl.to_int64 f)
  command_int (number s) = or_same (float_to_int (fl.parse s)) (number s)
  command_int (text s) = or_same (as_int (sc.scan_int s)) (text s)
  command_int v = v

  unfoldable pub command_float : ValueOf fl → ValueOf fl
  command_float (integer IntKind.int64 n) = Value.float64 (fl.of_int n)
  command_float (number s) = or_same (as_float (fl.parse s)) (number s)
  command_float (text s) = or_same (as_float (sc.scan_float s)) (text s)
  command_float v = v

  unfoldable pub command_float32 : ValueOf fl → Result (ValueOf fl)
  command_float32 v = do
    f ← coerce_float64 fl v
    require (not (fl.is_nan f || (fl.is_inf f || fl.is_inf (fl.widen (fl.narrow f))))) not_finite
    ok (Value.float32 (fl.narrow f))

  unfoldable pub command_float64 : ValueOf fl → Result (ValueOf fl)
  command_float64 v = do
    f ← coerce_float64 fl v
    require (not (fl.is_nan f || fl.is_inf f)) not_finite
    ok (Value.float64 f)

  unfoldable pub command_explicit : PointType → ValueOf fl → Result (ValueOf fl)
  command_explicit bool_type v = command_bool v
  command_explicit float32_type v = command_float32 v
  command_explicit float64_type v = command_float64 v
  command_explicit int_type v = ok (command_int v)
  command_explicit float_type v = ok (command_float v)
  command_explicit double_type v = ok (command_float v)
  command_explicit string_type v = ok v
  command_explicit uint_type v = ok v
  command_explicit enum_type v = ok v
  command_explicit no_type v = ok v
  command_explicit other_type v = ok v
  command_explicit t v = exact_integer fl t v

  -- The switch of the legacy version, behind LegacyJSONNumberValue; it has no case of a json.Number.
  unfoldable pub legacy_bool : ValueOf fl → ValueOf fl
  legacy_bool (text s) = Value.bool (is_true_text s)
  legacy_bool (Value.float64 f) = Value.bool (not (fl.is_zero f))
  legacy_bool v = v

  unfoldable pub legacy_int : ValueOf fl → ValueOf fl
  legacy_int (Value.float64 f) = integer IntKind.int64 (fl.to_int64 f)
  legacy_int (text s) = or_same (as_int (sc.scan_int s)) (text s)
  legacy_int v = v

  unfoldable pub legacy_float : ValueOf fl → ValueOf fl
  legacy_float (integer IntKind.int64 n) = Value.float64 (fl.of_int n)
  legacy_float (text s) = or_same (as_float (sc.scan_float s)) (text s)
  legacy_float v = v

  unfoldable pub command_legacy : PointType → ValueOf fl → ValueOf fl
  command_legacy bool_type v = legacy_bool v
  command_legacy int_type v = legacy_int v
  command_legacy int32_type v = legacy_int v
  command_legacy int64_type v = legacy_int v
  command_legacy float_type v = legacy_float v
  command_legacy double_type v = legacy_float v
  command_legacy _ v = v

  unfoldable pub normalize_command_value : Text → Bool → ValueOf fl → Result (ValueOf fl)
  normalize_command_value data_type explicit v =
      if explicit
      then command_explicit (point_type data_type) v
      else ok (command_legacy (point_type data_type) (legacy_json_number_value fl v))
