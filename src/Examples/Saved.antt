-- ===== src/Examples/Saved.antt =====
-- Saved searches with a format whose numbers are counted in ones.
use amule_remote_qt.Base.{
  ℕ, zero, suc, ◌≡◌, ◌≢◌, refl, ap, true, false, [], ◌∷◌, ◌++◌, ◌==◌, if◌then◌else◌, map, arith,
}
use amule_remote_qt.Ec.Bytes.{Text, text}
use amule_remote_qt.App.SavedSearches.{SavedSearch, Format, clean, replace, save, load}
use amule_remote_qt.App.SavedSearches.Fields.{IsPlain}
use amule_remote_qt.App.SavedSearches.Reload.{IsPrinted, IsFormat, IsStorable, cleaned, load-save}

abbrev ones : ℕ → Text
ones zero = b'0' ∷ []
ones (suc n) = b'1' ∷ ones n

abbrev count_ones : Text → ℕ
count_ones [] = 0
count_ones (c ∷ cs) = if c == b'1' then suc (count_ones cs) else count_ones cs

abbrev drop_end : Text → Text
drop_end [] = []
drop_end (c ∷ []) = if c == b'\n' then [] else c ∷ []
drop_end (c ∷ (d ∷ ds)) = c ∷ drop_end (d ∷ ds)

abbrev pub in_ones : Format
in_ones = record {
  to_utf8 = λ s. s;
  from_utf8 = λ b. b;
  trimmed = drop_end;
  number_int = ones;
  to_int = count_ones;
  number = ones;
  to_number = count_ones;
}

abbrev pub IsSolid : ℕ → Type 0
IsSolid c = c ≢ b' '

ones-IsPlain : (n : ℕ) → IsPlain (ones n)
ones-IsPlain zero = ground arith
ones-IsPlain (suc n) = ((omega arith, omega arith), ones-IsPlain n)

count_ones-ones : (n : ℕ) → count_ones (ones n) ≡ n
count_ones-ones zero = refl
count_ones-ones (suc n) = ap suc (count_ones-ones n)

ones-closes : (n : ℕ) → (front : Text) × (c : ℕ) × (ones n ≡ front ++ c ∷ []) × IsSolid c
ones-closes zero = ([], b'0', refl, omega arith)
ones-closes (suc n) = let (front, c, e, h) = ones-closes n in (b'1' ∷ front, c, ap (◌∷◌ b'1') e, h)

ones-IsPrinted : (n : ℕ) → IsPrinted in_ones IsSolid n ones count_ones
ones-IsPrinted n = record {
  plain = ones-IsPlain n;
  closes = ones-closes n;
  reads = count_ones-ones n;
}

drop_end-line : (s : Text) → drop_end (s ++ b'\n' ∷ []) ≡ s
drop_end-line [] = refl
drop_end-line (c ∷ []) = refl
drop_end-line (c ∷ (d ∷ ds)) = ap (◌∷◌ c) (drop_end-line (d ∷ ds))

pub in_ones-IsFormat : IsFormat in_ones IsSolid
in_ones-IsFormat = record {
  utf8_empty = refl;
  utf8_line = λ s t. refl;
  utf8_no_end = λ s h. h;
  from_utf8_line = λ s. refl;
  trims = λ c d inner hc hd. drop_end-line (c ∷ (inner ++ d ∷ []));
  prints_int = λ n h. ones-IsPrinted n;
  prints = λ n h. ones-IsPrinted n;
}

abbrev a_search : SavedSearch
a_search = record {
  name = text "iso\tfiles";
  text = text "linux";
  kind_index = 1;
  type_index = 0;
  filter_text = text "a\nb";
  filter_negate = true;
  filter_glob = false;
  filter_regex = true;
  only_complete = false;
  min_sources = 2;
  max_sources = 0;
}

a_search-IsStorable : IsStorable in_ones IsSolid a_search
unfolding clean replace
a_search-IsStorable = record {
  begins = (b'i', _, refl, omega arith);
  carried = refl;
  kind_fits = omega arith;
  type_fits = omega arith;
  min_fits = omega arith;
  max_fits = omega arith;
}

load-save_example :
    load in_ones (save in_ones true [] (a_search ∷ []))
    ≡ map (cleaned in_ones IsSolid) (a_search ∷ [])
load-save_example =
    load-save in_ones IsSolid in_ones-IsFormat [] (a_search ∷ []) (a_search-IsStorable, tt)
