-- ===== src/Ec/Codec/RoundTrip.antt =====
-- What `writeTag` and `encode` write, `readTag` and `decodePayload` read back.
use amule_remote_qt.Base.{
  ℕ, zero, suc, ◌+◌, ◌-◌, ◌/◌, ◌%◌, ◌^◌, ◌≤◌, ◌<◌, ◌≡◌, refl, ap, ap₂, ◌∙◌, Bool, true, false,
  arith, [], ◌∷◌, ◌++◌, append_assoc, if◌then◌else◌, ◌==◌, length, not, ltb,
}
use amule_remote_qt.Ec.Bytes.{Qt, Bytes, big_endian}
use amule_remote_qt.Ec.Tag.{Tag, Tags, TagValue, tag, nil, cons, is_nil, count}
use amule_remote_qt.Ec.Codec.Encode.{encode_value, tag_len, write_tag, write_tags, name_wire}
use amule_remote_qt.Ec.Codec.Decode.{
  Cursor, ok, unsigned, decode_value, read_tags, read_children, read_data, read_tag,
}
use amule_remote_qt.Ec.Codec.WellFormed.{IsTag, AreTags, body_len, children_len}
use amule_remote_qt.Ec.Codec.Reads.{at, take_bytes-append, unsigned-big_endian, unsigned-byte}
use amule_remote_qt.Ec.Codec.ValueRoundTrip.{decode_value-encode_value}
use amule_remote_qt.Ec.Codec.Length.{
  tag_len-body_len, length-write_tag, length-write_tags, length-append_bytes,
}

name_wire_parts :
    (n : ℕ) (b : Bool)
    → n < 2 ^ 15
    → (name_wire n b / 2 ≡ n) × ((name_wire n b % 2 == 1) ≡ b) × (name_wire n b < 2 ^ 16)
unfolding name_wire
name_wire_parts n true h = ground arith
name_wire_parts n false h = ground arith

read_data-append :
    (len start q : ℕ) (bytes rest : Bytes)
    → start ≤ q
    → len ≡ q - start + length bytes
    → read_data len start (at q (bytes ++ rest)) ≡ ok (bytes, at (q + length bytes) rest)
unfolding read_data
read_data-append len start q bytes rest h e =
    let enough : ltb len (q - start) ≡ false = ground arith in
    rw enough (
      take_bytes-append (len - (q - start)) q bytes rest (omega arith)
      ∙ ap (λ k. ok (bytes, at k rest)) (omega arith))

module _ (qt : Qt) where
  read_tag_steps :
      (f wire type len start : ℕ) (kids : Tags) (bytes : Bytes) (c₀ c₁ c₂ c₃ c₄ c₅ : Cursor)
      → unsigned 2 c₀ ≡ ok (wire, c₁)
      → unsigned 1 c₁ ≡ ok (type, c₂)
      → unsigned 4 c₂ ≡ ok (len, c₃)
      → read_children (read_tag qt f) (wire % 2 == 1) c₃ ≡ ok ((start, kids), c₄)
      → read_data len start c₄ ≡ ok (bytes, c₅)
      → read_tag qt (suc f) c₀ ≡ ok (tag (wire / 2) (decode_value qt type bytes) kids, c₅)
  unfolding read_tag
  read_tag_steps f wire type len start kids bytes c₀ c₁ c₂ c₃ c₄ c₅ h₁ h₂ h₃ h₄ h₅ =
      rw (h₁, h₂, h₃, h₄, h₅) refl

  abbrev data_of : TagValue → Bytes
  data_of v = (encode_value qt v).1

  -- What `writeTag` puts between the length and the data.
  abbrev children_bytes : Tags → Bytes
  children_bytes cs = if is_nil cs then [] else big_endian 2 (count cs) ++ write_tags qt cs

  write_tag_layout :
      (n : ℕ) (v : TagValue) (cs : Tags) (rest : Bytes)
      → write_tag qt (tag n v cs) ++ rest
        ≡ big_endian 2 (name_wire n (not (is_nil cs)))
          ++ ((encode_value qt v).0
              ∷ (big_endian 4 (tag_len qt (tag n v cs))
                  ++ (children_bytes cs ++ (data_of v ++ rest))))
  unfolding write_tag
  write_tag_layout n v cs rest = simp append_assoc

  -- A reader of tags takes back what was written, whatever follows, and moves on by its length.
  abbrev pub Reads : ℕ → Tag → Type 0
  Reads f t =
      (p : ℕ) (rest : Bytes)
      → read_tag qt f (at p (write_tag qt t ++ rest))
        ≡ ok (t, at (p + length (write_tag qt t)) rest)

  abbrev pub ReadsAll : ℕ → Tags → Type 0
  ReadsAll f cs =
      (p : ℕ) (rest : Bytes)
      → read_tags (read_tag qt f) (count cs) (at p (write_tags qt cs ++ rest))
        ≡ ok (cs, at (p + length (write_tags qt cs)) rest)

  -- The bytes of the tag count.
  abbrev count_len : Tags → ℕ
  count_len cs = if is_nil cs then 0 else 2

  read_children-append :
      (f p : ℕ) (cs : Tags) (rest : Bytes)
      → count cs < 2 ^ 16
      → ReadsAll f cs
      → read_children (read_tag qt f) (not (is_nil cs)) (at p (children_bytes cs ++ rest))
        ≡ ok ((p + count_len cs, cs), at (p + count_len cs + length (write_tags qt cs)) rest)
  unfolding read_children
  read_children-append f p nil rest h ih =
      ap₂ (λ a b. ok ((a, nil), at b rest)) (omega arith) (unfold write_tag in omega arith)
  read_children-append f p (cons c cs) rest h ih = rw append_assoc (
      rw
        (
          unsigned-big_endian 2 p (count (cons c cs)) (write_tags qt (cons c cs) ++ rest) h,
          ih (p + 2) rest,
        )
        refl)

  -- A tag reads back once its children do.
  read_tag-Reads :
      (f n : ℕ) (v : TagValue) (cs : Tags)
      → IsTag qt (tag n v cs)
      → body_len qt (tag n v cs) < 2 ^ 32
      → ReadsAll f cs
      → Reads (suc f) (tag n v cs)
  unfolding body_len
  read_tag-Reads f n v cs (hn, hv, hc, hcs) hl ih p rest = rw (write_tag_layout n v cs rest) (
      read_tag_steps f wire type len start cs (data_of v) _ _ _ _ _ _
        (unsigned-big_endian 2 p wire _ wire_parts.2) (unsigned-byte (p + 2) type _)
        (unsigned-big_endian 4 (p + 2 + 1) len _ (omega (arith, tag_len-body_len qt (tag n v cs))))
        kids_read
        (read_data-append len start q (data_of v) rest (omega arith)
          (omega (arith, tag_len-body_len qt (tag n v cs), length-write_tags qt cs)))
      ∙ rw (wire_parts.0, decode_value-encode_value qt v hv)
          (ap (λ k. ok (tag n v cs, at k rest))
            (omega (arith, length-write_tag qt (tag n v cs), length-write_tags qt cs))))
    where
      wire : ℕ
      wire = name_wire n (not (is_nil cs))

      type : ℕ
      type = (encode_value qt v).0

      len : ℕ
      len = tag_len qt (tag n v cs)

      start : ℕ
      start = p + 2 + 1 + 4 + count_len cs

      q : ℕ
      q = start + length (write_tags qt cs)

      wire_parts : (wire / 2 ≡ n) × ((wire % 2 == 1) ≡ not (is_nil cs)) × (wire < 2 ^ 16)
      wire_parts = name_wire_parts n (not (is_nil cs)) hn

      kids_read :
          read_children
            (read_tag qt f)
            (wire % 2 == 1)
            (at (p + 2 + 1 + 4) (children_bytes cs ++ (data_of v ++ rest)))
          ≡ ok ((start, cs), at q (data_of v ++ rest))
      kids_read =
          rw wire_parts.1 (read_children-append f (p + 2 + 1 + 4) cs (data_of v ++ rest) hc ih)

  mutual
    unfolding body_len read_tags write_tag

    pub read_tag-write_tag :
        (t : Tag) (f : ℕ)
        → IsTag qt t
        → body_len qt t < 2 ^ 32
        → length (write_tag qt t) ≤ f
        → Reads f t
    read_tag-write_tag (tag n v cs) zero h hl hf =
        absurd (omega (arith, length-write_tag qt (tag n v cs)))
    read_tag-write_tag (tag n v cs) (suc f) h hl hf = read_tag-Reads f n v cs h hl (
        read_tags-write_tags cs f h.3 (omega arith)
          (omega (arith, length-write_tag qt (tag n v cs), length-write_tags qt cs)))

    pub read_tags-write_tags :
        (cs : Tags) (f : ℕ)
        → AreTags qt cs
        → children_len qt cs < 2 ^ 32
        → length (write_tags qt cs) ≤ f
        → ReadsAll f cs
    read_tags-write_tags nil f h hl hf p rest = ap (λ k. ok (nil, at k rest)) (omega arith)
    read_tags-write_tags (cons c cs) f (h, hs) hl hf p rest = rw append_assoc (
        rw
          (
            read_tag-write_tag c f h (omega arith)
                (omega (arith, length-append_bytes (write_tag qt c) (write_tags qt cs))) p
                (write_tags qt cs ++ rest),
            read_tags-write_tags cs f hs (omega arith)
                (omega (arith, length-append_bytes (write_tag qt c) (write_tags qt cs)))
                (p + length (write_tag qt c)) rest,
          )
          (ap (λ k. ok (cons c cs, at k rest))
            (omega (arith, length-append_bytes (write_tag qt c) (write_tags qt cs)))))
