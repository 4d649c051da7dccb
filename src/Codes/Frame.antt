-- ===== src/Codes/Frame.antt =====
-- core/ec/codes.h: protocol version and header size.
use amule_remote_qt.Base.{ℕ}

abbrev pub current_protocol_version : ℕ
current_protocol_version = 0x0204

abbrev pub header_size : ℕ
header_size = 8
