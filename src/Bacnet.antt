-- ===== src/Bacnet.antt =====
-- The BACnet/IP client's frames: internal/conn/bacnet_manager.go.
pub mod Value
pub mod Frame
pub mod Exchange
mod Tests
