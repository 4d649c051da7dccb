-- ===== src/Examples/Interface.antt =====
-- The search filter and the tables at concrete inputs.
use amule_remote_qt.Base.{ℕ, ◌≡◌, refl, Bool, true, false, some, List, [], ◌∷◌, ltb, map, replicate}
use amule_remote_qt.Ec.Bytes.{text}
use amule_remote_qt.Model.Types.{
  SearchResult, new_search_result, Download, new_download, new_source_client,
}
use amule_remote_qt.App.SearchFilter.{
  SearchFilter, one_of, Matching, Proxy, ascending, glob_to_regex, expression, within_bounds,
  less_than,
}
use amule_remote_qt.App.SearchFilter.Glob.{anchored_atoms, glob_atom, anchored_atoms-glob_to_regex}
use amule_remote_qt.App.Tables.{
  data_changed, same_layout, set_rows, set_downloads, new_source_table,
}
use amule_remote_qt.App.Tables.Visible.{
  SourceCall, new_sources, new_file, take_calls, last_file, last_sources, sources_of,
  take_calls-visible,
}

anchored_atoms-glob_to_regex_example :
    anchored_atoms (glob_to_regex (text "a?*.(b)")) ≡ some (map glob_atom (text "a?*.(b)"))
anchored_atoms-glob_to_regex_example = anchored_atoms-glob_to_regex (text "a?*.(b)")

abbrev all_names : SearchFilter
all_names = record {
  text = text "iso";
  negate = false;
  glob = false;
  regex = true;
  only_complete = true;
  min_sources = 2;
  max_sources = 0;
}

-- Row 3 is anchored.
abbrev with_anchor : Proxy
with_anchor = record {
  filter = all_names;
  pattern = [];
  use_pattern = false;
  anchored = 3 ∷ [];
  anchor_enabled = true;
}

abbrev by_row : ℕ → ℕ → Bool
by_row a b = ltb a b

three_before_one : less_than with_anchor ascending by_row 3 1 ≡ true
unfolding less_than
three_before_one = refl

one_before_two : less_than with_anchor ascending by_row 1 2 ≡ true
unfolding less_than
one_before_two = refl

-- Expressions are those of one character, and match a name that begins with it.
abbrev pub first_char : Matching
first_char = record {
  trimmed = λ s. s;
  holds = λ t name. one_of name b'i';
  is_valid = λ e. elim e [ [] ↦ false | c ∷ cs ↦ elim cs [ [] ↦ true | d ∷ ds ↦ false ] ];
  has_match = λ e name. false;
}

abbrev a_result : SearchResult
a_result = record new_search_result {
  name = text "an iso";
  source_count = 4;
  complete_source_count = 1;
}

inside_bounds : within_bounds first_char all_names a_result ≡ true
unfolding within_bounds
inside_bounds = refl

not_valid : first_char.is_valid (expression first_char all_names) ≡ false
unfolding expression
not_valid = refl

abbrev queue : List Download
queue =
    record new_download { hash = replicate 16 1; speed = 5 }
    ∷ (record new_download { hash = replicate 16 2 } ∷ [])

abbrev next_queue : List Download
next_queue =
    record new_download { hash = replicate 16 1; speed = 9 }
    ∷ (record new_download { hash = replicate 16 2; speed = 1 } ∷ [])

queue_changed : (set_downloads next_queue queue).1 ≡ data_changed
unfolding set_downloads set_rows same_layout
queue_changed = refl

abbrev source_calls : List SourceCall
source_calls =
    new_sources (record new_source_client { id = 1; file_ecid = 7 } ∷ [])
    ∷ (new_file 7 ∷ (new_sources [] ∷ (new_file 0 ∷ [])))

take_calls-visible_example :
    (take_calls source_calls new_source_table).visible
    ≡ sources_of (last_file 0 source_calls) (last_sources [] source_calls)
take_calls-visible_example = take_calls-visible source_calls
