-- ===== src/History/Line.antt =====
-- The text of a point: buildHistoryLineProtocol and buildHistoryField of
-- internal/collector/history_writer.go, and the points of the collectors.
pub mod Tags
use multiple_protocol_contro.Common.{Bool, List, Option, Text, [], codes, false, if◌then◌else◌}
use multiple_protocol_contro.Common.{map, none, not, some, trim_space, true, ◌++◌, ◌||◌, ◌∷◌}
use multiple_protocol_contro.Common.Int.{ℤ}
use multiple_protocol_contro.History.Escape.{blank, equals, escape_string, escape_tag, quote}
use multiple_protocol_contro.Values.{Floats, Result, Value, ValueOf, bools, empty_payload, err}
use multiple_protocol_contro.Values.{integer, items, nil, not_finite, number, ok, other, require}
use multiple_protocol_contro.Values.{text, ◌>>=◌, ◌>>◌}
use multiple_protocol_contro.Values.Decimal.Print.{print_ℤ}

-- fmt.Sprint and strconv.FormatFloat(f, 'f', -1, 64), of which nothing is assumed.
pub record Formats (fl : Floats) : Type 0 where
  pub sprint : ValueOf fl → Text
  pub format_float : fl.F64 → Text

-- `timestamp` is none for the zero time, and else the nanoseconds of UnixNano.
pub record HistoryPoint (fl : Floats) : Type 0 where
  pub device_id : Text
  pub serial_number : Text
  pub property_key : Text
  pub property_id : Text
  pub property_name : Text
  pub protocol : Text
  pub unit : Text
  pub data_type : Text
  pub value : ValueOf fl
  pub timestamp : Option ℤ

abbrev pub is_blank : Text → Bool
is_blank [] = true
is_blank (c ∷ s) = false

-- strings.Join
abbrev pub join_tail : Text → List Text → Text
join_tail sep [] = []
join_tail sep (s ∷ ss) = sep ++ (s ++ join_tail sep ss)

abbrev pub join : Text → List Text → Text
join sep [] = []
join sep (s ∷ ss) = s ++ join_tail sep ss

-- The loop over the optional tags: one is left out when nothing is left of its value.
unfoldable pub optional_tags : List (Text × Text) → List (Text × Text)
optional_tags [] = []
optional_tags ((key, value) ∷ rest) =
    let later = optional_tags rest in
    let trimmed = trim_space value in if is_blank trimmed then later else (key, trimmed) ∷ later

unfoldable pub print_tag : Text × Text → Text
print_tag tag = tag.0 ++ (equals ∷ escape_tag tag.1)

abbrev pub print_line : List (Text × Text) → Text → ℤ → Text
print_line tags field time =
    codes "device_history,"
    ++ (join (codes ",") (map print_tag tags) ++ (blank ∷ (field ++ (blank ∷ print_ℤ time))))

abbrev pub number_field : ℤ → Text
number_field n = codes "value_number=" ++ print_ℤ n

abbrev pub string_field : Text → Text
string_field s = codes "value_string=\"" ++ (escape_string s ++ (quote ∷ []))

abbrev pub time_or : ℤ → Option ℤ → ℤ
time_or now none = now
time_or now (some t) = t

-- fallbackHistoryString and historyDataType
unfoldable pub fallback_history_string : Text → Text → Text
fallback_history_string value fallback = if is_blank (trim_space value) then fallback else value

unfoldable pub history_data_type : Text → Text → Text
history_data_type property_type data_type =
    if is_blank (trim_space property_type) then data_type else property_type

-- What historyPointFromModbus, historyPointFromOpcua, historyPointFromBacnet and
-- historyPointFromMqtt read of a device and of a parameter: the fields have the same names in all four.
pub record HistoryDevice : Type 0 where
  pub id : Text
  pub device_serial : Text
  pub device_protocol : Text

pub record HistoryParam : Type 0 where
  pub param_device : Text
  pub param_serial : Text
  pub identify : Text
  pub param_property : Text
  pub name : Text
  pub param_unit : Text
  pub property_type : Text
  pub param_type : Text

module _ (fl : Floats) where
  abbrev pub optional_values : HistoryPoint fl → List (Text × Text)
  optional_values p =
      (codes "serial_number", trim_space p.serial_number)
      ∷ (codes "property_id", p.property_id)
      ∷ (codes "property_name", p.property_name)
      ∷ (codes "protocol", p.protocol)
      ∷ (codes "unit", p.unit)
      ∷ (codes "data_type", p.data_type)
      ∷ []

  abbrev pub tags_of : HistoryPoint fl → List (Text × Text)
  tags_of p =
      (codes "device_id", trim_space p.device_id)
      ∷ (codes "property_key", trim_space p.property_key)
      ∷ optional_tags (optional_values p)

  unfoldable pub format_history_float : Formats fl → fl.F64 → Result Text
  format_history_float fm f =
      if fl.is_nan f || fl.is_inf f
      then err not_finite
      else ok (codes "value_number=" ++ fm.format_float f)

  unfoldable pub build_history_field : Formats fl → ValueOf fl → Result Text
  build_history_field fm (Value.bool true) = ok (codes "value_bool=true")
  build_history_field fm (Value.bool false) = ok (codes "value_bool=false")
  build_history_field fm (integer k n) = ok (number_field n)
  build_history_field fm (Value.float32 f) = format_history_float fm (fl.widen f)
  build_history_field fm (Value.float64 f) = format_history_float fm f
  build_history_field fm (text s) = ok (string_field s)
  build_history_field fm nil = ok (string_field (fm.sprint nil))
  build_history_field fm (number s) = ok (string_field (fm.sprint (number s)))
  build_history_field fm (bools bs) = ok (string_field (fm.sprint (bools bs)))
  build_history_field fm (items vs) = ok (string_field (fm.sprint (items vs)))
  build_history_field fm other = ok (string_field (fm.sprint other))

  -- `now` is the clock of a point without a time.
  unfoldable pub build_history_line : Formats fl → ℤ → HistoryPoint fl → Result Text
  build_history_line fm now p = do
    require (not (is_blank (trim_space p.device_id) || is_blank (trim_space p.property_key)))
        empty_payload
    field ← build_history_field fm p.value
    ok (print_line (tags_of p) field (time_or now p.timestamp))

  unfoldable pub history_point : HistoryDevice → HistoryParam → ValueOf fl → ℤ → HistoryPoint fl
  history_point device param value now = record {
    device_id = fallback_history_string param.param_device device.id;
    serial_number = fallback_history_string param.param_serial device.device_serial;
    property_key = param.identify;
    property_id = param.param_property;
    property_name = param.name;
    protocol = device.device_protocol;
    unit = param.param_unit;
    data_type = history_data_type param.property_type param.param_type;
    value = value;
    timestamp = some now;
  }
