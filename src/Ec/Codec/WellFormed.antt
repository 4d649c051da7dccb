-- ===== src/Ec/Codec/WellFormed.antt =====
-- The packets that the wire format of core/ec/codec.cpp can carry.
use amule_remote_qt.Base.{ℕ, ◌+◌, ◌^◌, ◌<◌, ◌≡◌, ◌≢◌, [], if◌then◌else◌, length, All}
use amule_remote_qt.Ec.Bytes.{Qt, Text, Bytes}
use amule_remote_qt.Ec.Tag.{
  Tag, Tags, TagValue, tag, nil, cons, empty, custom, integer, string, hash, ipv4, double, count,
  is_nil, children,
}
use amule_remote_qt.Ec.Packet.{Packet}
use amule_remote_qt.Ec.Codec.Encode.{encode_value}

abbrev pub HasNoNul : Bytes → Type 0
HasNoNul = All (λ b. b ≢ 0)

module _ (qt : Qt) where
  -- Qt's UTF-8 carries the text, and the text holds no NUL.
  abbrev pub IsCarried : Text → Type 0
  IsCarried s = HasNoNul (qt.to_utf8 s) × (qt.from_utf8 (qt.to_utf8 s) ≡ s)

  -- An empty byte array would come back as the empty marker; a double must survive its print.
  abbrev pub IsValue : TagValue → Type 0
  IsValue empty = Unit {0}
  IsValue (custom b) = b ≢ []
  IsValue (integer v) = v < 2 ^ 64
  IsValue (string s) = IsCarried s
  IsValue (hash h) = length h ≡ 16
  IsValue (ipv4 a) = (length a.ip ≡ 4) × (a.port < 2 ^ 16)
  IsValue (double d) = HasNoNul (qt.number d) × (qt.to_double (qt.trimmed (qt.number d)) ≡ d)

  abbrev mutual
    pub IsTag : Tag → Type 0
    IsTag (tag n v cs) = (n < 2 ^ 15) × IsValue v × (count cs < 2 ^ 16) × AreTags cs

    pub AreTags : Tags → Type 0
    AreTags nil = Unit {0}
    AreTags (cons t ts) = IsTag t × AreTags ts

  -- The length of a tag's data and children, with no wrap-around.
  unfoldable mutual
    pub body_len : Tag → ℕ
    body_len (tag n v cs) = length (encode_value qt v).1 + children_len cs

    pub children_len : Tags → ℕ
    children_len nil = 0
    children_len (cons c cs) =
        7 + (if is_nil (children c) then 0 else 2) + body_len c + children_len cs

  pub record IsPacket (p : Packet) : Type 0 where
    pub opcode_fits : p.opcode < 256
    pub count_fits : count p.tags < 2 ^ 16
    pub tags_fit : AreTags p.tags
    pub length_fits : children_len p.tags < 2 ^ 32
