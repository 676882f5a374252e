-- ===== src/Protocol.antt =====
-- The protocols of devices: their names and data types, internal/protocol.
pub mod Names
pub mod DataTypes
pub mod Points
