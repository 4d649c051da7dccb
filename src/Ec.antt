-- ===== src/Ec.antt =====
-- core/ec: the External Connection protocol.
pub mod Bytes
pub mod Tag
pub mod Packet
pub mod Codec
pub mod Outcome
pub mod Client
