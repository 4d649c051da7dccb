-- ===== src/Ec/Codec.antt =====
-- core/ec/codec.cpp: packets and tags as bytes, and back.
pub mod Encode
pub mod Decode
pub mod WellFormed
pub mod Length
pub mod Shortest
pub mod Reads
pub mod ValueRoundTrip
pub mod RoundTrip
pub mod Payload
pub mod Total
pub mod Prefix
pub mod InRange
