-- ===== src/Codes/Prio.antt =====
-- core/ec/codes.h: priorities that may be set.
use amule_remote_qt.Base.{ℕ}

abbrev pub low : ℕ
low = 0

abbrev pub normal : ℕ
normal = 1

abbrev pub high : ℕ
high = 2

abbrev pub auto : ℕ
auto = 10
