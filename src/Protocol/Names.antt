-- ===== src/Protocol/Names.antt =====
-- The registry of internal/protocol/protocol.go, and the protocol names that internal/config/runtime.go tests.
pub mod Registered
use multiple_protocol_contro.Common.{Bool, Option, Text, [], codes, false, if◌then◌else◌, none}
use multiple_protocol_contro.Common.{some, switch, text_eq, to_upper, trim_space, true, ◌∷◌}

pub data Protocol : Type 0 where
  modbus_rtu bacnet opcua mqtt : Protocol

unfoldable pub normalize_name : Text → Text
normalize_name name = to_upper (trim_space name)

-- `registry[NormalizeName(name)] = p`, where an earlier entry of that name is replaced.
unfoldable pub register_protocol :
    Text → Protocol → (Text → Option Protocol) → Text → Option Protocol
register_protocol name p registry key =
    if text_eq key (normalize_name name) then some p else registry key

-- The init functions of the four packages, each under a name of its own.
abbrev pub registry : Text → Option Protocol
registry = register_protocol (codes "MODBUS_RTU") modbus_rtu (
    register_protocol (codes "bacnet") bacnet (
      register_protocol (codes "OPCUA") opcua
        (register_protocol (codes "MQTT") mqtt (λ key. none))))

unfoldable pub get_protocol : Text → Option Protocol
get_protocol name = registry (normalize_name name)

unfoldable pub is_modbus_protocol : Text → Bool
is_modbus_protocol proto =
    switch
      ((codes "MODBUSRTU", true)
        ∷ (codes "MODBUS_RTU", true)
        ∷ (codes "MODBUS", true)
        ∷ (codes "MODBUSTCP", true)
        ∷ (codes "MODBUS_TCP", true)
        ∷ [])
      false (normalize_name proto)

unfoldable pub is_bacnet_protocol : Text → Bool
is_bacnet_protocol proto = text_eq (normalize_name proto) (codes "BACNET")

unfoldable pub is_opcua_protocol : Text → Bool
is_opcua_protocol proto = text_eq (normalize_name proto) (codes "OPCUA")

unfoldable pub is_mqtt_protocol : Text → Bool
is_mqtt_protocol proto = text_eq (normalize_name proto) (codes "MQTT")
