-- ===== src/Codes/Detail.antt =====
-- core/ec/codes.h: values of EC_TAG_DETAIL_LEVEL.
use amule_remote_qt.Base.{ℕ}

abbrev pub cmd : ℕ
cmd = 0x00

abbrev pub full : ℕ
full = 0x02

abbrev pub update : ℕ
update = 0x03

abbrev pub inc_update : ℕ
inc_update = 0x04
