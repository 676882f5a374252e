-- ===== src/Control.antt =====
-- Commands: their values as MQTT payloads, the verification of what was written, and the results.
-- internal/control/control.go and internal/control/verification.go.
pub mod Payload
pub mod Compare
pub mod Readback
pub mod Results
pub mod Dispatch
mod Tests
