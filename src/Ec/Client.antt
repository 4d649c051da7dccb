-- ===== src/Ec/Client.antt =====
-- core/ec/client.cpp: the blocking client.
pub mod Socket
pub mod Password
pub mod Frames
pub mod Handshake
