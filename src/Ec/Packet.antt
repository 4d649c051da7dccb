-- ===== src/Ec/Packet.antt =====
-- core/ec/packet.h: an opcode and the top-level tags.
use amule_remote_qt.Base.{ℕ, Option}
use amule_remote_qt.Ec.Bytes.{Text}
use amule_remote_qt.Ec.Tag.{Tag, Tags, find, and_then, as_int, as_string}

pub record Packet : Type 0 where
  pub opcode : ℕ
  pub tags : Tags

abbrev pub tag : Packet → ℕ → Option Tag
tag p n = find n p.tags

abbrev pub tag_int : Packet → ℕ → Option ℕ
tag_int p n = and_then (tag p n) as_int

abbrev pub tag_string : Packet → ℕ → Option Text
tag_string p n = and_then (tag p n) as_string
