-- ===== src/App/SavedSearches.antt =====
-- app/savedsearches.h and app/savedsearches.cpp: the file of saved searches. The file is the bytes
-- that it holds, opened where QIODevice::Text changes no line ends.
pub mod Fields
pub mod Reload
use amule_remote_qt.Base.{
  ℕ, Bool, true, false, ◌≡◌, ◌≢◌, Option, none, some, List, [], ◌∷◌, ◌++◌, ◌==◌, if◌then◌else◌, All,
}
use amule_remote_qt.Ec.Bytes.{Bytes, Text}

-- An `int` is its 32-bit pattern.
pub record SavedSearch : Type 0 where
  pub name : Text
  pub text : Text
  pub kind_index : ℕ
  pub type_index : ℕ
  pub filter_text : Text
  pub filter_negate : Bool
  pub filter_glob : Bool
  pub filter_regex : Bool
  pub only_complete : Bool
  pub min_sources : ℕ
  pub max_sources : ℕ

-- What is used of Qt: UTF-8, QString::trimmed, QString::number of an int and of a quint64, toInt
-- and toULongLong.
pub record Format : Type 0 where
  pub to_utf8 : Text → Bytes
  pub from_utf8 : Bytes → Text
  pub trimmed : Text → Text
  pub number_int : ℕ → Text
  pub to_int : Text → ℕ
  pub number : ℕ → Text
  pub to_number : Text → ℕ

unfoldable pub replace : ℕ → ℕ → Text → Text
replace c d [] = []
replace c d (x ∷ xs) = (if x == c then d else x) ∷ replace c d xs

unfoldable pub clean : Text → Text
clean s = replace b'\r' b' ' (replace b'\n' b' ' (replace b'\t' b' ' s))

unfoldable pub bool_field : Bool → Text
bool_field true = b'1' ∷ []
bool_field false = b'0' ∷ []

-- QStringList::join and QString::split with a tab.
unfoldable pub join : List Text → Text
join [] = []
join (f ∷ []) = f
join (f ∷ (g ∷ fs)) = f ++ b'\t' ∷ join (g ∷ fs)

-- One more character before the first field.
abbrev pub push : ℕ → List Text → List Text
push c [] = (c ∷ []) ∷ []
push c (f ∷ fs) = (c ∷ f) ∷ fs

unfoldable pub split : Text → List Text
split [] = [] ∷ []
split (c ∷ cs) = let rest = split cs in if c == b'\t' then [] ∷ rest else push c rest

-- QFile::readLine until the end: each line with its line end.
unfoldable pub lines : Bytes → List Bytes
lines [] = []
lines (b ∷ bs) = let rest = lines bs in if b == b'\n' then (b ∷ []) ∷ rest else push b rest

-- `== QLatin1Char('1')`.
abbrev pub is_one : Text → Bool
is_one [] = false
is_one (c ∷ []) = c == b'1'
is_one (c ∷ (d ∷ ds)) = false

abbrev pub add_some : Option SavedSearch → List SavedSearch → List SavedSearch
add_some none ss = ss
add_some (some s) ss = s ∷ ss

module _ (m : Format) where
  unfoldable pub fields : SavedSearch → List Text
  fields s =
      clean s.name
      ∷ (clean s.text
          ∷ (m.number_int s.kind_index
              ∷ (m.number_int s.type_index
                  ∷ (clean s.filter_text
                      ∷ (bool_field s.filter_negate
                          ∷ (bool_field s.filter_glob
                              ∷ (bool_field s.filter_regex
                                  ∷ (bool_field s.only_complete
                                      ∷ (m.number s.min_sources
                                          ∷ (m.number s.max_sources ∷ []))))))))))

  unfoldable pub saved_text : List SavedSearch → Text
  saved_text [] = []
  saved_text (s ∷ ss) = join (fields s) ++ b'\n' ∷ saved_text ss

  -- `saveSavedSearches`, on what the file holds: where it cannot be opened, or is not committed, it
  -- stays as it was.
  unfoldable pub save : Bool → Bytes → List SavedSearch → Bytes
  save written file ss = if written then m.to_utf8 (saved_text ss) else file

  -- A line of another number of fields is passed over.
  unfoldable pub of_fields : List Text → Option SavedSearch
  of_fields
        (name
          ∷ (text
              ∷ (kind
                  ∷ (type
                      ∷ (filter
                          ∷ (negate ∷ (glob ∷ (regex ∷ (complete ∷ (least ∷ (most ∷ []))))))))))) =
      some (record {
        name = name;
        text = text;
        kind_index = m.to_int kind;
        type_index = m.to_int type;
        filter_text = filter;
        filter_negate = is_one negate;
        filter_glob = is_one glob;
        filter_regex = is_one regex;
        only_complete = is_one complete;
        min_sources = m.to_number least;
        max_sources = m.to_number most;
      })
  of_fields _ = none

  -- An empty line is passed over.
  unfoldable pub of_line : Text → Option SavedSearch
  of_line [] = none
  of_line (c ∷ cs) = of_fields (split (c ∷ cs))

  unfoldable pub read_line : Bytes → Option SavedSearch
  read_line line = of_line (m.trimmed (m.from_utf8 line))

  unfoldable pub load_lines : List Bytes → List SavedSearch
  load_lines [] = []
  load_lines (l ∷ ls) = add_some (read_line l) (load_lines ls)

  unfoldable pub load : Bytes → List SavedSearch
  load file = load_lines (lines file)
