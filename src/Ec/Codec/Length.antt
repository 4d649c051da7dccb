-- ===== src/Ec/Codec/Length.antt =====
-- `tagLen` against the bytes that `writeTag` writes.
use amule_remote_qt.Base.{
  ℕ, ◌+◌, ◌-◌, ◌%◌, ◌^◌, ◌<◌, ◌≡◌, refl, arith, ◌++◌, if◌then◌else◌, length, length-append,
}
use amule_remote_qt.Ec.Bytes.{Qt, Bytes}
use amule_remote_qt.Ec.Bytes.BigEndian.{length-big_endian}
use amule_remote_qt.Ec.Tag.{Tag, Tags, tag, nil, cons, is_nil, children}
use amule_remote_qt.Ec.Packet.{Packet}
use amule_remote_qt.Ec.Codec.Encode.{
  encode_payload, u32, encode_value, tag_len, tag_len_children, write_tag, write_tags,
}
use amule_remote_qt.Ec.Codec.WellFormed.{body_len, children_len}

pub length-append_bytes : (xs ys : Bytes) → length (xs ++ ys) ≡ length xs + length ys
length-append_bytes = length-append

ruleset lengths = (arith, length-append_bytes, length-big_endian)

module _ (qt : Qt) where
  mutual
    unfolding tag_len body_len

    -- The 32-bit sum is the true length, cut to 32 bits.
    pub tag_len-body_len : (t : Tag) → tag_len qt t ≡ body_len qt t % 2 ^ 32
    tag_len-body_len (tag n v cs) =
        omega (arith, tag_len_children-children_len cs (u32 (length (encode_value qt v).1)))

    tag_len_children-children_len :
        (cs : Tags) (n : ℕ)
        → n < 2 ^ 32
        → tag_len_children qt cs n ≡ (n + children_len qt cs) % 2 ^ 32
    tag_len_children-children_len nil n h = omega arith
    tag_len_children-children_len (cons (tag m v nil) cs) n h = omega (
      arith,
      tag_len-body_len (tag m v nil),
      tag_len_children-children_len cs (u32 (u32 (n + 7) + tag_len qt (tag m v nil))),
    )
    tag_len_children-children_len (cons (tag m v (cons k ks)) cs) n h = omega (
      arith,
      tag_len-body_len (tag m v (cons k ks)),
      tag_len_children-children_len cs
          (u32 (u32 (u32 (n + 7) + 2) + tag_len qt (tag m v (cons k ks)))),
    )

  mutual
    unfolding write_tag body_len

    pub length-write_tag :
        (t : Tag)
        → length (write_tag qt t) ≡ 7 + (if is_nil (children t) then 0 else 2) + body_len qt t
    length-write_tag (tag n v nil) = omega lengths
    length-write_tag (tag n v (cons c cs)) = omega (lengths, length-write_tags (cons c cs))

    pub length-write_tags : (ts : Tags) → length (write_tags qt ts) ≡ children_len qt ts
    length-write_tags nil = refl
    length-write_tags (cons t ts) = omega (lengths, length-write_tag t, length-write_tags ts)

  pub length-encode_payload :
      (p : Packet) → length (encode_payload qt p) ≡ 3 + children_len qt p.tags
  unfolding encode_payload
  length-encode_payload p = omega (lengths, length-write_tags p.tags)

  -- The length field of a written tag counts the bytes after its header and its tag count, modulo
  -- 2^32.
  pub tag_len-write_tag :
      (t : Tag)
      → tag_len qt t
        ≡ (length (write_tag qt t) - (7 + (if is_nil (children t) then 0 else 2))) % 2 ^ 32
  tag_len-write_tag t = omega (arith, tag_len-body_len t, length-write_tag t)
