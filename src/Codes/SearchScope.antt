-- ===== src/Codes/SearchScope.antt =====
-- core/ec/codes.h: values of EC_TAG_SEARCH_TYPE.
use amule_remote_qt.Base.{ℕ}

abbrev pub local : ℕ
local = 0x00

abbrev pub global : ℕ
global = 0x01

abbrev pub kad : ℕ
kad = 0x02
