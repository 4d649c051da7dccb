-- ===== src/Codes/SeeShares.antt =====
-- core/ec/codes.h: values of EC_TAG_SECURITY_CAN_SEE_SHARES.
use amule_remote_qt.Base.{ℕ}

abbrev pub all : ℕ
all = 0

abbrev pub friends : ℕ
friends = 1

abbrev pub nobody : ℕ
nobody = 2
