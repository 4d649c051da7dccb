-- ===== src/Codes/TagType.antt =====
-- core/ec/codes.h: wire types of tag values.
use amule_remote_qt.Base.{ℕ}

abbrev pub unknown : ℕ
unknown = 0

abbrev pub custom : ℕ
custom = 1

abbrev pub uint8 : ℕ
uint8 = 2

abbrev pub uint16 : ℕ
uint16 = 3

abbrev pub uint32 : ℕ
uint32 = 4

abbrev pub uint64 : ℕ
uint64 = 5

abbrev pub string : ℕ
string = 6

abbrev pub double : ℕ
double = 7

abbrev pub ipv4 : ℕ
ipv4 = 8

abbrev pub hash16 : ℕ
hash16 = 9

abbrev pub uint128 : ℕ
uint128 = 10
