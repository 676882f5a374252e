-- ===== src/History.antt =====
-- The writer of device history to InfluxDB: internal/collector/history_writer.go.
pub mod Escape
pub mod Line
pub mod Batches
pub mod Send
mod Tests
