-- ===== src/Runtime/Device.antt =====
-- A device as it is configured, internal/config/device.go, and what all protocols read of its properties.
-- `protocol` is the raw JSON of that field.
use multiple_protocol_contro.Common.{Bool, List, Text, [], false, if◌then◌else◌, not, suc, true}
use multiple_protocol_contro.Common.{zero, ◌++◌, ◌==◌, ◌∷◌}
use multiple_protocol_contro.Common.Int.{negsuc, pos, ℤ}
use multiple_protocol_contro.Protocol.Points.{is_empty_text}
use multiple_protocol_contro.Values.{Result, err, ok, panic}

pub record Property (Raw : Type 0) : Type 0 where
  pub id : Text
  pub type : Text
  pub key : Text
  pub name : Text
  pub access : Text
  pub unit : Text
  pub protocol : Raw

pub record DeviceParam (Raw : Type 0) : Type 0 where
  pub param_key : Text
  pub value : Raw

pub record GatewayInfo : Type 0 where
  pub gateway_id : Text
  pub ip : Text
  pub port : ℤ

-- The fields of a DeviceConfig that internal/config/runtime.go reads.
pub record DeviceConfig (Raw : Type 0) : Type 0 where
  pub device_id : Text
  pub gateway_info : GatewayInfo
  pub serial_number : Text
  pub device_protocol : Text
  pub device_type : ℤ
  pub acq_freq : ℤ
  pub username : Text
  pub password : Text
  pub properties : List (Property Raw)
  pub params : List (DeviceParam Raw)

-- The fields that the eight structs of read and write points share.
pub record PointInfo : Type 0 where
  pub property_id : Text
  pub owner_id : Text
  pub owner_serial : Text
  pub identify : Text
  pub property_name : Text
  pub property_type : Text
  pub explicit : Bool
  pub data_type : Text
  pub property_unit : Text

unfoldable pub effective_data_type : Text → Text → Text
effective_data_type point_type property_type =
    if is_empty_text point_type then property_type else point_type

-- Access is a text of two flags, for reading and for writing.
unfoldable pub is_read_disabled : Text → Bool
is_read_disabled [] = true
is_read_disabled (c ∷ access) = not (c == b'1')

unfoldable pub is_write_enabled : Text → Bool
is_write_enabled [] = false
is_write_enabled (c ∷ []) = false
is_write_enabled (c ∷ d ∷ access) = d == b'1'

unfoldable pub point_info : {Raw : Type 0} → DeviceConfig Raw → Property Raw → Text → PointInfo
point_info dev prop point_type = record {
  property_id = prop.id;
  owner_id = dev.device_id;
  owner_serial = dev.serial_number;
  identify = prop.key;
  property_name = prop.name;
  property_type = prop.type;
  explicit = not (is_empty_text point_type);
  data_type = effective_data_type point_type prop.type;
  property_unit = prop.unit;
}

-- A loop whose body logs an error and goes on: what it makes of each element, where it makes something.
unfoldable pub add_valid {ℓ} : {B : Type ℓ} → Result B → List B → List B
add_valid (ok b) later = b ∷ later
add_valid (err e) later = later
add_valid panic later = later

unfoldable pub keep_valid {ℓ} : {A B : Type ℓ} → (A → Result B) → List A → List B
keep_valid f [] = []
keep_valid f (a ∷ rest) = let later = keep_valid f rest in add_valid (f a) later

-- The loop over the properties: what is parsed of each adds to the read points, and to the write
-- points where the property may be written.
unfoldable pub add_points {ℓ} :
    {P C : Type ℓ} → Bool → Result (List P × List C) → List P × List C → List P × List C
add_points writable (ok points) later =
    (points.0 ++ later.0, (if writable then points.1 else []) ++ later.1)
add_points writable (err e) later = later
add_points writable panic later = later

unfoldable pub points_of {ℓ} :
    {Raw : Type 0} {P C : Type ℓ}
    → (Property Raw → Result (List P × List C))
    → List (Property Raw)
    → List P × List C
points_of parse [] = ([], [])
points_of parse (prop ∷ props) =
    let later = points_of parse props in
    add_points (is_write_enabled prop.access) (parse prop) later

-- `n == 0`
abbrev pub is_zero_int : ℤ → Bool
is_zero_int (pos zero) = true
is_zero_int (pos (suc n)) = false
is_zero_int (negsuc n) = false
