-- ===== src/Codes/PrefCategory.antt =====
-- core/ec/codes.h: bits of EC_TAG_SELECT_PREFS.
use amule_remote_qt.Base.{ℕ}

abbrev pub general : ℕ
general = 0x00000002

abbrev pub connections : ℕ
connections = 0x00000004

abbrev pub messagefilter : ℕ
messagefilter = 0x00000008

abbrev pub remotecontrols : ℕ
remotecontrols = 0x00000010

abbrev pub onlinesig : ℕ
onlinesig = 0x00000020

abbrev pub servers : ℕ
servers = 0x00000040

abbrev pub files : ℕ
files = 0x00000080

abbrev pub directories : ℕ
directories = 0x00000200

abbrev pub statistics : ℕ
statistics = 0x00000400

abbrev pub security : ℕ
security = 0x00000800

abbrev pub coretweaks : ℕ
coretweaks = 0x00001000

abbrev pub kademlia : ℕ
kademlia = 0x00002000
