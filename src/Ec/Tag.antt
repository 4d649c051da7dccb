-- ===== src/Ec/Tag.antt =====
-- core/ec/tag.h: tag values, tags and their accessors.
use amule_remote_qt.Base.{
  ℕ, suc, Option, none, some, List, [], ◌∷◌, ◌==◌, if◌then◌else◌, Bool, true, false,
}
use amule_remote_qt.Ec.Bytes.{Bytes, Text}

-- The 16 bytes of a digest.
abbrev pub Hash16 : Type 0
Hash16 = Bytes

-- Four address bytes and a port.
pub record Ipv4 : Type 0 where
  pub ip : Bytes
  pub port : ℕ

-- The alternatives of the variant. A `double` is its 64-bit pattern.
pub data TagValue : Type 0 where
  empty : TagValue
  custom : Bytes → TagValue
  integer : ℕ → TagValue
  string : Text → TagValue
  hash : Hash16 → TagValue
  ipv4 : Ipv4 → TagValue
  double : ℕ → TagValue

mutual
  pub data Tag : Type 0 where
    tag : ℕ → TagValue → Tags → Tag

  pub data Tags : Type 0 where
    nil : Tags
    cons : Tag → Tags → Tags

abbrev pub name : Tag → ℕ
name (tag n v cs) = n

abbrev pub value : Tag → TagValue
value (tag n v cs) = v

abbrev pub children : Tag → Tags
children (tag n v cs) = cs

-- A tag with no children.
abbrev pub leaf : ℕ → TagValue → Tag
leaf n v = tag n v nil

abbrev pub with_children : Tag → Tags → Tag
with_children (tag n v cs) kids = tag n v kids

abbrev pub count : Tags → ℕ
count nil = 0
count (cons t ts) = suc (count ts)

abbrev pub is_nil : Tags → Bool
is_nil nil = true
is_nil (cons t ts) = false

abbrev pub to_list : Tags → List Tag
to_list nil = []
to_list (cons t ts) = t ∷ to_list ts

abbrev pub of_list : List Tag → Tags
of_list [] = nil
of_list (t ∷ ts) = cons t (of_list ts)

-- The first tag of a list that has the name: `Tag::child` on the children, `Packet::tag` on a
-- packet's tags.
unfoldable pub find : ℕ → Tags → Option Tag
find n nil = none
find n (cons t ts) = if name t == n then some t else find n ts

abbrev pub child : Tag → ℕ → Option Tag
child t n = find n (children t)

abbrev pub value_int : TagValue → Option ℕ
value_int (integer v) = some v
value_int _ = none

abbrev pub value_string : TagValue → Option Text
value_string (string s) = some s
value_string _ = none

abbrev pub value_hash : TagValue → Option Hash16
value_hash (hash h) = some h
value_hash _ = none

abbrev pub as_int : Tag → Option ℕ
as_int t = value_int (value t)

abbrev pub as_string : Tag → Option Text
as_string t = value_string (value t)

abbrev pub as_hash : Tag → Option Hash16
as_hash t = value_hash (value t)

abbrev pub and_then {ℓ κ} : {A : Type ℓ} {B : Type κ} → Option A → (A → Option B) → Option B
and_then none f = none
and_then (some a) f = f a

abbrev pub child_int : Tag → ℕ → Option ℕ
child_int t n = and_then (child t n) as_int

abbrev pub child_string : Tag → ℕ → Option Text
child_string t n = and_then (child t n) as_string
