-- ===== src/App/SavedSearches/Reload.antt =====
-- The file of app/savedsearches.cpp, written and read again.
use amule_remote_qt.Base.{
  ℕ, ◌<◌, ◌^◌, true, ◌≡◌, ◌≢◌, refl, sym, ap, ◌∙◌, some, List, [], ◌∷◌, ◌++◌, All, append_assoc,
  map,
}
use amule_remote_qt.Ec.Bytes.{Bytes, Text}
use amule_remote_qt.App.SavedSearches.{
  SavedSearch, Format, clean, bool_field, join, split, lines, fields, saved_text, save, of_fields,
  of_line, read_line, load_lines, load,
}
use amule_remote_qt.App.SavedSearches.Fields.{
  IsPlain, clean-IsPlain, bool_field-IsPlain, is_one-bool_field, split-join, join-no_end,
  lines-line,
}

module _ (m : Format) (IsSolid : ℕ → Type 0) where
  -- A number's print: it has no tab and no line end, closes with a character that is no space, and
  -- reads back.
  pub record IsPrinted (n : ℕ) (print : ℕ → Text) (read : Text → ℕ) : Type 0 where
    pub plain : IsPlain (print n)
    pub closes : (front : Text) × (c : ℕ) × (print n ≡ front ++ c ∷ []) × IsSolid c
    pub reads : read (print n) ≡ n

  -- What Qt documents: numbers of 32 and of 64 bits print and read back (an `int` is its 32-bit
  -- pattern, and prints with its sign), a line end is one byte of UTF-8 and part of no other
  -- character, and trimming takes spaces off the ends; `IsSolid` holds of characters that are no
  -- space.
  pub record IsFormat : Type 0 where
    pub utf8_empty : m.to_utf8 [] ≡ []
    pub utf8_line : (s t : Text) → m.to_utf8 (s ++ b'\n' ∷ t) ≡ m.to_utf8 s ++ b'\n' ∷ m.to_utf8 t
    pub utf8_no_end : (s : Text) → All (λ c. c ≢ b'\n') s → All (λ c. c ≢ b'\n') (m.to_utf8 s)
    pub from_utf8_line :
        (s : Text)
        → m.from_utf8 (m.to_utf8 s ++ b'\n' ∷ []) ≡ m.from_utf8 (m.to_utf8 s) ++ b'\n' ∷ []
    pub trims :
        (c d : ℕ) (inner : Text)
        → IsSolid c
        → IsSolid d
        → m.trimmed ((c ∷ (inner ++ d ∷ [])) ++ b'\n' ∷ []) ≡ c ∷ (inner ++ d ∷ [])
    pub prints_int : (n : ℕ) → n < 2 ^ 32 → IsPrinted n m.number_int m.to_int
    pub prints : (n : ℕ) → n < 2 ^ 64 → IsPrinted n m.number m.to_number

  -- Tabs and line ends have become spaces.
  abbrev pub cleaned : SavedSearch → SavedSearch
  cleaned s = record s {
    name = clean s.name;
    text = clean s.text;
    filter_text = clean s.filter_text;
  }

  -- A name that begins with no space, texts that UTF-8 carries, and numbers of their types.
  pub record IsStorable (s : SavedSearch) : Type 0 where
    pub begins : (c : ℕ) × (after : Text) × (clean s.name ≡ c ∷ after) × IsSolid c
    pub carried : m.from_utf8 (m.to_utf8 (join (fields m s))) ≡ join (fields m s)
    pub kind_fits : s.kind_index < 2 ^ 32
    pub type_fits : s.type_index < 2 ^ 32
    pub min_fits : s.min_sources < 2 ^ 64
    pub max_fits : s.max_sources < 2 ^ 64

  module _ (q : IsFormat) where
    fields-IsPlain : (s : SavedSearch) → IsStorable s → All IsPlain (fields m s)
    unfolding fields
    fields-IsPlain s h = (
      clean-IsPlain s.name,
      (
        clean-IsPlain s.text,
        (
          (q.prints_int s.kind_index h.kind_fits).plain,
          (
            (q.prints_int s.type_index h.type_fits).plain,
            (
              clean-IsPlain s.filter_text,
              (
                bool_field-IsPlain s.filter_negate,
                (
                  bool_field-IsPlain s.filter_glob,
                  (
                    bool_field-IsPlain s.filter_regex,
                    (
                      bool_field-IsPlain s.only_complete,
                      (
                        (q.prints s.min_sources h.min_fits).plain,
                        ((q.prints s.max_sources h.max_fits).plain, tt),
                      ),
                    ),
                  ),
                ),
              ),
            ),
          ),
        ),
      ),
    )

    of_fields-fields :
        (s : SavedSearch) → IsStorable s → of_fields m (fields m s) ≡ some (cleaned s)
    unfolding of_fields fields
    of_fields-fields s h =
        rw
          (
            (q.prints_int s.kind_index h.kind_fits).reads,
            (q.prints_int s.type_index h.type_fits).reads,
            is_one-bool_field s.filter_negate,
            is_one-bool_field s.filter_glob,
            is_one-bool_field s.filter_regex,
            is_one-bool_field s.only_complete,
            (q.prints s.min_sources h.min_fits).reads,
            (q.prints s.max_sources h.max_fits).reads,
          )
          refl

    abbrev Closes : Text → Type 0
    Closes t = (front : Text) × (c : ℕ) × (t ≡ front ++ c ∷ []) × IsSolid c

    Closes-after : (s t : Text) → Closes t → Closes (s ++ t)
    Closes-after s t (front, c, e, h) =
        (s ++ front, c, ap (◌++◌ s) e ∙ sym (append_assoc s front (c ∷ [])), h)

    join-Closes :
        (f : Text) (fs : List Text) (last : Text)
        → Closes last
        → Closes (join (f ∷ (fs ++ last ∷ [])))
    unfolding join
    join-Closes f [] last h = Closes-after f _ (Closes-after (b'\t' ∷ []) last h)
    join-Closes f (g ∷ gs) last h =
        Closes-after f _ (Closes-after (b'\t' ∷ []) _ (join-Closes g gs last h))

    join-shape :
        (first g last after : Text) (gs : List Text) (c : ℕ)
        → first ≡ c ∷ after
        → Closes last
        → (d : ℕ) × (inner : Text) × IsSolid d
          × (join (first ∷ (g ∷ (gs ++ last ∷ []))) ≡ c ∷ (inner ++ d ∷ []))
    unfolding join
    join-shape first g last after gs c e h =
        let (inner, d, closed, solid_d) =
          Closes-after after _ (Closes-after (b'\t' ∷ []) _ (join-Closes g gs last h)) in
        (
          d,
          inner,
          solid_d,
          ap (λ n. n ++ b'\t' ∷ join (g ∷ (gs ++ last ∷ []))) e ∙ ap (◌∷◌ c) closed,
        )

    -- A line of the file is the characters between two that are no space.
    line-shape :
        (s : SavedSearch)
        → IsStorable s
        → (c : ℕ) × (d : ℕ) × (inner : Text) × IsSolid c
          × IsSolid d
          × (join (fields m s) ≡ c ∷ (inner ++ d ∷ []))
    unfolding fields
    line-shape s h =
        let (c, after, name, solid_c) = h.begins in
        let middle : List Text =
          m.number_int s.kind_index
          ∷ (m.number_int s.type_index
              ∷ (clean s.filter_text
                  ∷ (bool_field s.filter_negate
                      ∷ (bool_field s.filter_glob
                          ∷ (bool_field s.filter_regex
                              ∷ (bool_field s.only_complete ∷ (m.number s.min_sources ∷ []))))))) in
        let (d, inner, solid_d, e) =
          join-shape (clean s.name) (clean s.text) (m.number s.max_sources) after middle c name
            (q.prints s.max_sources h.max_fits).closes in
        (c, d, inner, solid_c, solid_d, e)

    split-fields : (s : SavedSearch) → IsStorable s → split (join (fields m s)) ≡ fields m s
    unfolding fields
    split-fields s h = split-join (clean s.name) _ (fields-IsPlain s h)

    trimmed-line :
        (s : SavedSearch)
        → IsStorable s
        → m.trimmed (join (fields m s) ++ b'\n' ∷ []) ≡ join (fields m s)
    trimmed-line s h =
        let (c, d, inner, solid_c, solid_d, e) = line-shape s h in
        ap (λ l. m.trimmed (l ++ b'\n' ∷ [])) e ∙ q.trims c d inner solid_c solid_d ∙ sym e

    of_line-filled : (l cs : Text) (c : ℕ) → l ≡ c ∷ cs → of_line m l ≡ of_fields m (split l)
    unfolding of_line
    of_line-filled l cs c e = rw e refl

    of_line-line :
        (s : SavedSearch) → IsStorable s → of_line m (join (fields m s)) ≡ some (cleaned s)
    of_line-line s h =
        let (c, d, inner, solid_c, solid_d, e) = line-shape s h in
        of_line-filled (join (fields m s)) (inner ++ d ∷ []) c e
        ∙ ap (of_fields m) (split-fields s h)
        ∙ of_fields-fields s h

    read_line-line :
        (s : SavedSearch)
        → IsStorable s
        → read_line m (m.to_utf8 (join (fields m s)) ++ b'\n' ∷ []) ≡ some (cleaned s)
    unfolding read_line
    read_line-line s h =
        ap (λ l. of_line m (m.trimmed l))
          (q.from_utf8_line (join (fields m s)) ∙ ap (λ l. l ++ b'\n' ∷ []) h.carried)
        ∙ ap (of_line m) (trimmed-line s h)
        ∙ of_line-line s h

    load_lines-saved :
        (ss : List SavedSearch)
        → All IsStorable ss
        → load_lines m (lines (m.to_utf8 (saved_text m ss))) ≡ map cleaned ss
    unfolding load_lines saved_text
    load_lines-saved [] h = rw q.utf8_empty (unfold lines in refl)
    load_lines-saved (s ∷ ss) (h, hs) =
        let line = join (fields m s) in
        rw q.utf8_line (
          rw
            (lines-line (m.to_utf8 line) (m.to_utf8 (saved_text m ss))
              (q.utf8_no_end line (join-no_end (fields m s) (fields-IsPlain s h))))
            (rw (read_line-line s h) (ap (◌∷◌ (cleaned s)) (load_lines-saved ss hs))))

    -- Saved searches are loaded again as they were, in order, with the tabs and line ends of their
    -- texts turned to spaces, where the file could be written, each name begins with no space, UTF-8
    -- carries the texts, the numbers are of 32 and of 64 bits, and the formats behave as Qt
    -- documents them.
    pub load-save :
        (file : Bytes) (ss : List SavedSearch)
        → All IsStorable ss
        → load m (save m true file ss) ≡ map cleaned ss
    unfolding load save
    load-save file ss h = load_lines-saved ss h
