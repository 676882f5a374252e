-- ===== src/Convert/Tests.antt =====
-- Concrete conversions.
use multiple_protocol_contro.Common.{[], codes, contains_any, lower, none, refl, switch, text_eq}
use multiple_protocol_contro.Common.{trim_space, true, ◌≡◌}
use multiple_protocol_contro.Common.Int.{pos}
use multiple_protocol_contro.Convert.{bacnet_explicit, coerce_unsigned, exact_integer}
use multiple_protocol_contro.Convert.{normalize_bacnet_command_value, point_type}
use multiple_protocol_contro.Convert.Command.{Scans, command_explicit, normalize_command_value}
use multiple_protocol_contro.Convert.Mqtt.{JsonTexts, has_type, normalize_mqtt_value}
use multiple_protocol_contro.Convert.Mqtt.{unless_typed}
use multiple_protocol_contro.Convert.Typed.{TypedAs, convert-Converted, integer_kind, to_mqtt}
use multiple_protocol_contro.Values.{IntKind, err, integer, number, ok, out_of_range}
use multiple_protocol_contro.Values.Coerce.{coerce_exact_uint64, exact_uint64_from_text}
use multiple_protocol_contro.Values.Decimal.{parse_uint}
use multiple_protocol_contro.Values.Samples.{two_floats, two_floats_laws}

abbrev no_scans : Scans two_floats
no_scans = record { scan_int = λ s. none; scan_float = λ s. none }

abbrev no_texts : JsonTexts two_floats
no_texts = record {
  json_float = λ s. none;
  json_int = λ s. none;
  json_uint = λ s. none;
  sprintf = λ v. [];
}

narrowed :
    normalize_command_value two_floats no_scans (codes "UInt8") true (number (codes "200"))
    ≡ ok (integer IntKind.uint8 (pos 200))
unfolding normalize_command_value point_type switch lower trim_space text_eq command_explicit
    exact_integer coerce_unsigned coerce_exact_uint64 exact_uint64_from_text contains_any parse_uint
narrowed = refl

too_wide :
    normalize_bacnet_command_value two_floats (number (codes "300")) (codes "uint8") true
    ≡ err out_of_range
unfolding normalize_bacnet_command_value point_type switch lower trim_space text_eq bacnet_explicit
    exact_integer coerce_unsigned coerce_exact_uint64 exact_uint64_from_text contains_any parse_uint
too_wide = refl

convert-Converted_example : TypedAs two_floats IntKind.uint8 (integer IntKind.uint8 (pos 200))
convert-Converted_example =
    convert-Converted two_floats two_floats_laws (λ v. []) no_scans no_texts to_mqtt (codes "UInt8")
      IntKind.uint8 (number (codes "200")) (integer IntKind.uint8 (pos 200)) tt
      (unfold integer_kind point_type switch lower trim_space text_eq in refl) narrowed

-- An int64 passes for an explicit int32 as it is, out of its range.
passed_through :
    normalize_mqtt_value two_floats no_texts
      (integer IntKind.int64 (pos 5000000000))
      (codes "int32")
      true
    ≡ ok (integer IntKind.int64 (pos 5000000000))
unfolding normalize_mqtt_value point_type switch lower trim_space text_eq unless_typed has_type
passed_through = refl
