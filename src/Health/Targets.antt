-- ===== src/Health/Targets.antt =====
-- The gateway endpoints of a configuration, buildGatewayTargets of internal/conn/gateway_health.go.
-- The map and the order of its keys are the list of targets in that order; the identifiers that were
-- seen under a key are those of its target.
pub mod Ids
pub mod Grouped
pub mod Devices
use multiple_protocol_contro.Common.{Bool, List, Text, [], codes, contains_byte, false}
use multiple_protocol_contro.Common.{if◌then◌else◌, length, not, switch, text_eq, trim_space}
use multiple_protocol_contro.Common.{true, ℕ, ◌&&◌, ◌++◌, ◌==◌, ◌||◌, ◌∷◌}
use multiple_protocol_contro.Common.Int.{negsuc, pos, ℤ}
use multiple_protocol_contro.Protocol.Names.{normalize_name}
use multiple_protocol_contro.Runtime.Build.{DeviceRuntime}
use multiple_protocol_contro.Values.Decimal.Print.{print_ℕ}

pub record GatewayTarget : Type 0 where
  pub device_ids : List Text
  pub key : Text
  pub target_ip : Text
  pub target_port : ℕ

-- net.JoinHostPort
unfoldable pub join_host_port : Text → ℕ → Text
unfolding print_ℕ
join_host_port host port =
    if contains_byte b':' host
    then b'[' ∷ host ++ (codes "]:" ++ print_ℕ port)
    else host ++ (b':' ∷ print_ℕ port)

unfoldable pub is_tcp_managed_protocol : Text → Bool
is_tcp_managed_protocol proto =
    switch
      ((codes "MODBUS", true)
        ∷ (codes "MODBUSRTU", true)
        ∷ (codes "MODBUS_RTU", true)
        ∷ (codes "MODBUSTCP", true)
        ∷ (codes "MODBUS_TCP", true)
        ∷ [])
      false (normalize_name proto)

unfoldable pub has_id : Text → List Text → Bool
has_id id [] = false
has_id id (x ∷ xs) = text_eq id x || has_id id xs

-- An identifier that is empty or was seen is not added.
unfoldable pub add_id : Text → List Text → List Text
add_id id xs = if text_eq id [] || has_id id xs then xs else xs ++ (id ∷ [])

unfoldable pub group_id : Text → Text → ℕ → Text → List GatewayTarget → List GatewayTarget
group_id k ip port id [] =
    record { device_ids = add_id id []; key = k; target_ip = ip; target_port = port } ∷ []
group_id k ip port id (t ∷ ts) =
    let later = group_id k ip port id ts in
    if text_eq k t.key then record t { device_ids = add_id id t.device_ids } ∷ ts else t ∷ later

unfoldable pub keep_named : List GatewayTarget → List GatewayTarget
keep_named [] = []
keep_named (t ∷ ts) =
    let kept = keep_named ts in if length t.device_ids == 0 then kept else t ∷ kept

unfoldable pub is_type_one : ℤ → Bool
is_type_one (pos n) = n == 1
is_type_one (negsuc n) = false

module _ {Raw : Type 0} where
  abbrev pub endpoint_of : DeviceRuntime Raw → Text
  endpoint_of dev = join_host_port (trim_space dev.gateway_ip) dev.gateway_port

  abbrev pub id_of : DeviceRuntime Raw → Text
  id_of dev = trim_space dev.config.device_id

  -- The device is a gateway of its own, of a Modbus protocol, with an address and a port.
  unfoldable pub is_gateway : DeviceRuntime Raw → Bool
  is_gateway dev =
      is_type_one dev.config.device_type
      && is_tcp_managed_protocol dev.config.device_protocol
      && not (text_eq (trim_space dev.gateway_ip) [] || dev.gateway_port == 0)

  unfoldable pub group_device : DeviceRuntime Raw → List GatewayTarget → List GatewayTarget
  group_device dev ts =
      if is_gateway dev
      then group_id (endpoint_of dev) (trim_space dev.gateway_ip) dev.gateway_port (id_of dev) ts
      else ts

  unfoldable pub group_devices : List (DeviceRuntime Raw) → List GatewayTarget → List GatewayTarget
  group_devices [] ts = ts
  group_devices (dev ∷ devs) ts = group_devices devs (group_device dev ts)

  unfoldable pub build_gateway_targets : List (DeviceRuntime Raw) → List GatewayTarget
  build_gateway_targets devs = keep_named (group_devices devs [])
