-- ===== src/Modbus/Registers.antt =====
-- The case labels on register data types that internal/protocol/modbusRtu/encodeCommand.go and
-- internal/collector/modbus.go share.
use multiple_protocol_contro.Common.{Bool, Text, [], codes, if◌then◌else◌, suc, switch, to_lower}
use multiple_protocol_contro.Common.{zero, ℕ, ◌%◌, ◌^◌, ◌∷◌}
use multiple_protocol_contro.Common.Int.{negsuc, pos, ℤ}

pub data RegisterType : Type 0 where
  short int16 ushort uint16 int32 uint32 float float32 double float64 int64 uint64 : RegisterType
  bool unknown : RegisterType

-- The label that a `switch` on the lower-case name takes.
unfoldable pub register_type : Text → RegisterType
register_type =
    switch
      ((codes "short", short)
        ∷ (codes "int16", int16)
        ∷ (codes "ushort", ushort)
        ∷ (codes "uint16", uint16)
        ∷ (codes "int32", int32)
        ∷ (codes "uint32", uint32)
        ∷ (codes "float", float)
        ∷ (codes "float32", float32)
        ∷ (codes "double", double)
        ∷ (codes "float64", float64)
        ∷ (codes "int64", int64)
        ∷ (codes "uint64", uint64)
        ∷ (codes "bool", bool)
        ∷ [])
      unknown

-- What `modbus.go` reads of config.ModbusParam. `int` fields are integers; a function code that is
-- negative takes the branch of any other unsupported code, so codes are natural numbers.
pub record ModbusParam : Type 0 where
  pub identify : Text
  pub data_type : Text
  pub explicit : Bool
  pub function_code : ℕ
  pub address : ℕ
  pub quantity : ℤ
  pub bit : ℤ
  pub read_disabled : Bool
  pub endian : Text

-- The default number of registers of a type.
unfoldable pub default_quantity : RegisterType → Bool → ℕ
default_quantity int32 explicit = 2
default_quantity uint32 explicit = 2
default_quantity float explicit = 2
default_quantity float32 explicit = if explicit then 2 else 1
default_quantity double explicit = 4
default_quantity float64 explicit = if explicit then 4 else 1
default_quantity uint64 explicit = 4
default_quantity int64 explicit = 4
default_quantity _ explicit = 1

unfoldable pub quantity_of : ℤ → ℕ → ℕ
quantity_of (pos zero) default = default
quantity_of (pos (suc n)) default = suc n % 2 ^ 16
quantity_of (negsuc n) default = default

-- `quantityForParam`: a uint16.
unfoldable pub quantity_for_param : ModbusParam → ℕ
quantity_for_param p =
    quantity_of p.quantity (default_quantity (register_type (to_lower p.data_type)) p.explicit)
