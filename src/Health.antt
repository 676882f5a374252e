-- ===== src/Health.antt =====
-- The health of Modbus gateways: internal/conn/gateway_health.go and internal/collector/gateway_status.go.
pub mod Targets
pub mod Probe
pub mod Status
mod Tests
