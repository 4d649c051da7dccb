-- ===== src/Codes/Status.antt =====
-- core/ec/codes.h: partfile status codes.
use amule_remote_qt.Base.{ℕ}

abbrev pub ready : ℕ
ready = 0

abbrev pub empty : ℕ
empty = 1

abbrev pub waiting_for_hash : ℕ
waiting_for_hash = 2

abbrev pub hashing : ℕ
hashing = 3

abbrev pub error : ℕ
error = 4

abbrev pub insufficient : ℕ
insufficient = 5

abbrev pub unknown : ℕ
unknown = 6

abbrev pub paused : ℕ
paused = 7

abbrev pub completing : ℕ
completing = 8

abbrev pub complete : ℕ
complete = 9

abbrev pub alloc : ℕ
alloc = 10
