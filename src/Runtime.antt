-- ===== src/Runtime.antt =====
-- The runtime configuration of devices: internal/config/runtime.go and internal/config/device.go.
pub mod Device
pub mod Origin
pub mod Modbus
pub mod Bacnet
pub mod Opcua
pub mod Mqtt
pub mod Params
pub mod Build
mod Tests
