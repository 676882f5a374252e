-- ===== src/Modbus.antt =====
-- Modbus RTU over TCP: frames, batches and values.
pub mod Crc
pub mod Bytes
pub mod Endian
pub mod Registers
pub mod Encode
pub mod Decode
pub mod Ack
pub mod Batch
pub mod Collect
mod Tests
