-- ===== src/Ec/Codec/Encode.antt =====
-- The encoding half of core/ec/codec.cpp.
use amule_remote_qt.Base.{
  ℕ, ◌+◌, ◌*◌, ◌%◌, ◌^◌, [], ◌∷◌, ◌++◌, leb, not, if◌then◌else◌, length, Bool,
}
use amule_remote_qt.Codes.Flag
use amule_remote_qt.Codes.TagType
use amule_remote_qt.Ec.Bytes.{Bytes, Qt, big_endian}
use amule_remote_qt.Ec.Tag.{
  Tag, Tags, TagValue, tag, nil, cons, empty, custom, integer, string, hash, ipv4, double, count,
  is_nil, children,
}
use amule_remote_qt.Ec.Packet.{Packet}

-- The number in its smallest type: (type byte, data).
unfoldable pub encode_int : ℕ → ℕ × Bytes
encode_int v =
    if leb v 0xff
    then (TagType.uint8, v ∷ [])
    else if leb v 0xffff
    then (TagType.uint16, big_endian 2 v)
    else if leb v 0xffff_ffff
    then (TagType.uint32, big_endian 4 v)
    else (TagType.uint64, big_endian 8 v)

-- uint32_t sums wrap at 2^32.
abbrev pub u32 : ℕ → ℕ
u32 n = n % 2 ^ 32

-- `name << 1` is even, so setting its last bit adds 1; the cast keeps 16 bits.
unfoldable pub name_wire : ℕ → Bool → ℕ
name_wire n has_children = (n * 2 + (if has_children then 1 else 0)) % 2 ^ 16

module _ (qt : Qt) where
  -- (type byte, data) of a value.
  unfoldable pub encode_value : TagValue → ℕ × Bytes
  unfolding encode_int
  encode_value empty = (TagType.custom, [])
  encode_value (custom b) = (TagType.custom, b)
  encode_value (integer i) = encode_int i
  encode_value (string s) = (TagType.string, qt.to_utf8 s ++ 0 ∷ [])
  encode_value (hash h) = (TagType.hash16, h)
  encode_value (ipv4 a) = (TagType.ipv4, a.ip ++ big_endian 2 a.port)
  encode_value (double d) = (TagType.double, qt.number d ++ 0 ∷ [])

  -- `tagLen`, and its loop over the children with the sum so far.
  unfoldable mutual
    pub tag_len : Tag → ℕ
    tag_len (tag n v cs) = tag_len_children cs (u32 (length (encode_value v).1))

    pub tag_len_children : Tags → ℕ → ℕ
    tag_len_children nil n = n
    tag_len_children (cons c cs) n =
        let header = u32 (n + 7) in
        let with_count = if is_nil (children c) then header else u32 (header + 2) in
        tag_len_children cs (u32 (with_count + tag_len c))

  -- `writeTag`: what it appends, and what its loop over the children appends.
  unfoldable mutual
    pub write_tag : Tag → Bytes
    write_tag (tag n v cs) =
        big_endian 2 (name_wire n (not (is_nil cs)))
        ++ (encode_value v).0
          ∷ (big_endian 4 (tag_len (tag n v cs))
              ++ ((if is_nil cs then [] else big_endian 2 (count cs) ++ write_tags cs)
                  ++ (encode_value v).1))

    pub write_tags : Tags → Bytes
    write_tags nil = []
    write_tags (cons t ts) = write_tag t ++ write_tags ts

  unfoldable pub encode_payload : Packet → Bytes
  encode_payload p = p.opcode ∷ (big_endian 2 (count p.tags) ++ write_tags p.tags)

  unfoldable pub encode : Packet → Bytes
  encode p =
      let payload = encode_payload p in
      big_endian 4 Flag.base ++ (big_endian 4 (length payload) ++ payload)
