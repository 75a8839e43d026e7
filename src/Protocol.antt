-- ===== src/Protocol.antt =====
-- The protocol layer: Modbus TCP frames, read planning, the client and the polling of a device.
pub mod Frame
pub mod Plan
pub mod Decoder
pub mod Client
