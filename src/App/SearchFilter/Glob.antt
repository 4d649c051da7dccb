-- ===== src/App/SearchFilter/Glob.antt =====
-- `globToRegex` of app/searchfilterproxy.cpp against the syntax of regular expressions.
use amule_remote_qt.Base.{
  ℕ, ◌≡◌, refl, ap, ◌∙◌, Bool, false, Option, none, some, List, [], ◌∷◌, ◌++◌, map, append_assoc,
  ◌==◌, if◌then◌else◌, arith, Bool-cases, inl, inr,
}
use amule_remote_qt.Ec.Bytes.{Text, text}
use amule_remote_qt.App.SearchFilter.{one_of, escaped, glob_char, glob_body, glob_to_regex}

-- One character, any number of characters, or the character named.
pub data Atom : Type 0 where
  one many : Atom
  literal : ℕ → Atom

-- What a glob means.
abbrev pub glob_atom : ℕ → Atom
glob_atom c = if c == b'*' then many else if c == b'?' then one else literal c

-- Outside brackets a regular expression gives these characters a meaning.
abbrev special : Text
special = text "\\^$.[|()?*+{"

abbrev with_atom : Atom → Option (List Atom) → Option (List Atom)
with_atom a none = none
with_atom a (some as_read) = some (a ∷ as_read)

abbrev starts_star : Text → Bool
starts_star [] = false
starts_star (c ∷ cs) = c == b'*'

abbrev at_end : Text → Option (List Atom)
at_end [] = some []
at_end (c ∷ cs) = none

-- How the next character is read: as it stands, as the star of `.*`, or after a backslash.
pub data Reading : Type 0 where
  plain starred quoted : Reading

-- The atoms of a regular expression that is a sequence of `.`, `.*`, characters and escaped
-- characters, closed by `$`; `none` for any other.
unfoldable pub atoms : Reading → Text → Option (List Atom)
atoms way [] = none
atoms starred (c ∷ cs) = atoms plain cs
atoms quoted (c ∷ cs) = with_atom (literal c) (atoms plain cs)
atoms plain (c ∷ cs) =
    if c == b'$'
    then at_end cs
    else if c == b'\\'
    then atoms quoted cs
    else if c == b'.'
    then (if starts_star cs
        then with_atom many (atoms starred cs)
        else with_atom one (atoms plain cs))
    else if one_of special c
    then none
    else with_atom (literal c) (atoms plain cs)

-- The same, opened by `^`.
abbrev pub anchored_atoms : Text → Option (List Atom)
anchored_atoms [] = none
anchored_atoms (c ∷ cs) = if c == b'^' then atoms plain cs else none

starts_star-glob_char : (c : ℕ) (rest : Text) → starts_star (glob_char c ++ rest) ≡ false
unfolding glob_char
starts_star-glob_char c rest = ground arith

-- Of the characters that a glob takes as they stand none has a meaning in the expression.
plain_char :
    (c : ℕ)
    → (c == b'*') ≡ false
    → (c == b'?') ≡ false
    → one_of escaped c ≡ false
    → ((c == b'$') ≡ false)
      × ((c == b'\\') ≡ false)
      × ((c == b'.') ≡ false)
      × (one_of special c ≡ false)
plain_char c star question none_of = ground arith

quoted_char :
    (c : ℕ) (rest : Text)
    → atoms plain (b'\\' ∷ (c ∷ rest)) ≡ with_atom (literal c) (atoms plain rest)
unfolding atoms
quoted_char c rest = refl

atoms-glob_char :
    (c : ℕ) (rest : Text)
    → starts_star rest ≡ false
    → atoms plain (glob_char c ++ rest) ≡ with_atom (glob_atom c) (atoms plain rest)
unfolding glob_char atoms
atoms-glob_char c rest h = elim (Bool-cases (c == b'*')) [
  | inl star ↦ rw star refl
  | inr star ↦ elim (Bool-cases (c == b'?')) [
    | inl question ↦ rw (star, question) (rw h refl)
    | inr question ↦ elim (Bool-cases (one_of escaped c)) [
      | inl meta ↦ rw (star, question) (rw meta refl)
      | inr meta ↦
          let (dollar, slash, dot, special) = plain_char c star question meta in
          rw (star, question) (rw meta (rw (dollar, slash, dot, special) refl))
    ]
  ]
]

starts_star-glob_body : (g : Text) → starts_star (glob_body g ++ b'$' ∷ []) ≡ false
unfolding glob_body
starts_star-glob_body [] = refl
starts_star-glob_body (c ∷ cs) =
    rw append_assoc (starts_star-glob_char c (glob_body cs ++ b'$' ∷ []))

atoms-glob_body : (g : Text) → atoms plain (glob_body g ++ b'$' ∷ []) ≡ some (map glob_atom g)
unfolding glob_body
atoms-glob_body [] = unfold atoms in refl
atoms-glob_body (c ∷ cs) = rw append_assoc (
    atoms-glob_char c (glob_body cs ++ b'$' ∷ []) (starts_star-glob_body cs)
    ∙ ap (with_atom (glob_atom c)) (atoms-glob_body cs))

-- The expression made of a glob is anchored at both ends and reads as the glob's own characters: a
-- star as any number of characters, a question mark as one, and every other character as itself,
-- whatever it would mean in an expression.
pub anchored_atoms-glob_to_regex :
    (glob : Text) → anchored_atoms (glob_to_regex glob) ≡ some (map glob_atom glob)
unfolding glob_to_regex
anchored_atoms-glob_to_regex glob = atoms-glob_body glob
