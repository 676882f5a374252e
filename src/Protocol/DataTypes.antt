-- ===== src/Protocol/DataTypes.antt =====
-- The vocabulary of data types, internal/protocol/datatypes/datatypes.go.
pub mod Canonical
use multiple_protocol_contro.Common.{Bool, List, Option, Text, [], codes, false, if◌then◌else◌}
use multiple_protocol_contro.Common.{none, some, text_eq, to_lower, trim_space, ◌==◌, ◌||◌, ◌∷◌}
use multiple_protocol_contro.Common.Int.{negsuc, pos, ℤ}
use multiple_protocol_contro.Values.{Result, bad_text, err, of_option, unsupported_type}

abbrev pub aliases : List (Text × Text)
aliases =
    (codes "bool", codes "bool")
    ∷ (codes "boolean", codes "bool")
    ∷ (codes "int8", codes "int8")
    ∷ (codes "uint8", codes "uint8")
    ∷ (codes "byte", codes "uint8")
    ∷ (codes "int16", codes "int16")
    ∷ (codes "short", codes "int16")
    ∷ (codes "uint16", codes "uint16")
    ∷ (codes "ushort", codes "uint16")
    ∷ (codes "word", codes "uint16")
    ∷ (codes "int32", codes "int32")
    ∷ (codes "int", codes "int32")
    ∷ (codes "uint32", codes "uint32")
    ∷ (codes "uint", codes "uint32")
    ∷ (codes "dword", codes "uint32")
    ∷ (codes "int64", codes "int64")
    ∷ (codes "long", codes "int64")
    ∷ (codes "uint64", codes "uint64")
    ∷ (codes "ulong", codes "uint64")
    ∷ (codes "float32", codes "float32")
    ∷ (codes "float", codes "float32")
    ∷ (codes "float64", codes "float64")
    ∷ (codes "double", codes "float64")
    ∷ (codes "string", codes "string")
    ∷ (codes "enum", codes "enum")
    ∷ (codes "enumeration", codes "enum")
    ∷ []

-- `m[key]` of a map literal.
unfoldable pub find_key {ℓ} : {V : Type ℓ} → List (Text × V) → Text → Option V
find_key [] key = none
find_key ((k, v) ∷ rest) key =
    let later = find_key rest key in if text_eq key k then some v else later

-- `_, ok := set[key]`
unfoldable pub has_key : List Text → Text → Bool
has_key [] key = false
has_key (k ∷ rest) key = text_eq key k || has_key rest key

unfoldable pub canonical : Text → Result Text
canonical raw =
    let normalized = to_lower (trim_space raw) in
    if text_eq normalized []
    then err bad_text
    else of_option (find_key aliases normalized) unsupported_type

abbrev pub register_read_types : List Text
register_read_types =
    codes "bool"
    ∷ codes "int16"
    ∷ codes "uint16"
    ∷ codes "int32"
    ∷ codes "uint32"
    ∷ codes "int64"
    ∷ codes "uint64"
    ∷ codes "float32"
    ∷ codes "float64"
    ∷ []

abbrev pub register_write_types : List Text
register_write_types =
    codes "int16"
    ∷ codes "uint16"
    ∷ codes "int32"
    ∷ codes "uint32"
    ∷ codes "int64"
    ∷ codes "uint64"
    ∷ codes "float32"
    ∷ codes "float64"
    ∷ []

abbrev pub bacnet_types : List Text
bacnet_types =
    codes "bool"
    ∷ codes "int8"
    ∷ codes "uint8"
    ∷ codes "int16"
    ∷ codes "uint16"
    ∷ codes "int32"
    ∷ codes "uint32"
    ∷ codes "int64"
    ∷ codes "uint64"
    ∷ codes "float32"
    ∷ codes "float64"
    ∷ []

abbrev pub opcua_types : List Text
opcua_types =
    codes "bool"
    ∷ codes "int8"
    ∷ codes "uint8"
    ∷ codes "int16"
    ∷ codes "uint16"
    ∷ codes "int32"
    ∷ codes "uint32"
    ∷ codes "int64"
    ∷ codes "uint64"
    ∷ codes "float32"
    ∷ codes "float64"
    ∷ codes "string"
    ∷ []

abbrev pub mqtt_types : List Text
mqtt_types =
    codes "bool"
    ∷ codes "int8"
    ∷ codes "uint8"
    ∷ codes "int16"
    ∷ codes "uint16"
    ∷ codes "int32"
    ∷ codes "uint32"
    ∷ codes "int64"
    ∷ codes "uint64"
    ∷ codes "float32"
    ∷ codes "float64"
    ∷ codes "string"
    ∷ []

-- Function codes are ints.
unfoldable pub supports_modbus_read : Text → ℤ → Bool
supports_modbus_read data_type (negsuc n) = false
supports_modbus_read data_type (pos fc) =
    if fc == 1 || fc == 2
    then text_eq data_type (codes "bool")
    else if fc == 3 || fc == 4
    then has_key register_read_types data_type
    else false

unfoldable pub supports_modbus_write : Text → ℤ → Bool
supports_modbus_write data_type (negsuc n) = false
supports_modbus_write data_type (pos fc) =
    if fc == 5 || fc == 15
    then text_eq data_type (codes "bool")
    else if fc == 6
    then text_eq data_type (codes "int16") || text_eq data_type (codes "uint16")
    else if fc == 16
    then has_key register_write_types data_type
    else false

unfoldable pub supports_opcua : Text → Bool
supports_opcua data_type = has_key opcua_types data_type

unfoldable pub supports_bacnet : Text → Bool
supports_bacnet data_type = has_key bacnet_types data_type

unfoldable pub supports_mqtt : Text → Bool
supports_mqtt data_type = has_key mqtt_types data_type
