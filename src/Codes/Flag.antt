-- ===== src/Codes/Flag.antt =====
-- core/ec/codes.h: flags of the outer header.
use amule_remote_qt.Base.{ℕ}

abbrev pub zlib : ℕ
zlib = 0x00000001

abbrev pub utf8_numbers : ℕ
utf8_numbers = 0x00000002

abbrev pub large_tag_count : ℕ
large_tag_count = 0x00000010

abbrev pub base : ℕ
base = 0x00000020
