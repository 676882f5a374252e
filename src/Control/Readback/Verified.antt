-- ===== src/Control/Readback/Verified.antt =====
-- What a verified Modbus write says of the device.
