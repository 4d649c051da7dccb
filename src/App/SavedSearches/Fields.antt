-- ===== src/App/SavedSearches/Fields.antt =====
-- The fields of a line of the file of saved searches, written and read.
use amule_remote_qt.Base.{
  ℕ, ◌≡◌, ◌≢◌, refl, ap, ◌∙◌, Bool, true, false, List, [], ◌∷◌, ◌++◌, ◌==◌, All, arith, Bool-cases,
  inl, inr,
}
use amule_remote_qt.Ec.Bytes.{Bytes, Text}
use amule_remote_qt.App.SavedSearches.{replace, clean, bool_field, join, push, split, lines, is_one}

-- No tab and no line end.
abbrev pub IsPlain : Text → Type 0
IsPlain = All (λ c. (c ≢ b'\t') × (c ≢ b'\n'))

replace-All :
    (P Q : ℕ → Type 0) (c d : ℕ) (s : Text)
    → ((x : ℕ) → P x → x ≢ c → Q x)
    → Q d
    → All P s
    → All Q (replace c d s)
unfolding replace
replace-All P Q c d [] keep fresh h = tt
replace-All P Q c d (x ∷ xs) keep fresh (h, hs) = elim (Bool-cases (x == c)) [
  | inl hit ↦ rw hit (fresh, replace-All P Q c d xs keep fresh hs)
  | inr miss ↦ rw miss (keep x h (ground arith), replace-All P Q c d xs keep fresh hs)
]

All-any : (s : Text) → All (λ c. Unit {0}) s
All-any [] = tt
All-any (c ∷ cs) = (tt, All-any cs)

pub clean-IsPlain : (s : Text) → IsPlain (clean s)
unfolding clean
clean-IsPlain s =
    replace-All _ _ b'\r' b' ' _ (λ x h _. h) (ground arith, ground arith)
      (replace-All (λ c. c ≢ b'\t') _ b'\n' b' ' _ (λ x h k. (h, k)) (ground arith, ground arith)
        (replace-All (λ c. Unit {0}) _ b'\t' b' ' s (λ x h k. k) (ground arith) (All-any s)))

pub bool_field-IsPlain : (b : Bool) → IsPlain (bool_field b)
unfolding bool_field
bool_field-IsPlain true = ground arith
bool_field-IsPlain false = ground arith

pub is_one-bool_field : (b : Bool) → is_one (bool_field b) ≡ b
unfolding bool_field
is_one-bool_field true = refl
is_one-bool_field false = refl

split-field : (f t : Text) → IsPlain f → split (f ++ b'\t' ∷ t) ≡ f ∷ split t
unfolding split
split-field [] t h = refl
split-field (c ∷ cs) t ((no_tab, no_end), h) =
    let other : (c == b'\t') ≡ false = ground arith in rw other (ap (push c) (split-field cs t h))

split-last : (f : Text) → IsPlain f → split f ≡ f ∷ []
unfolding split
split-last [] h = refl
split-last (c ∷ cs) ((no_tab, no_end), h) =
    let other : (c == b'\t') ≡ false = ground arith in rw other (ap (push c) (split-last cs h))

-- Fields without a tab are split as they were joined.
pub split-join : (f : Text) (fs : List Text) → All IsPlain (f ∷ fs) → split (join (f ∷ fs)) ≡ f ∷ fs
unfolding join
split-join f [] (h, hs) = split-last f h
split-join f (g ∷ gs) (h, hs) = split-field f (join (g ∷ gs)) h ∙ ap (◌∷◌ f) (split-join g gs hs)

All-append : (P : ℕ → Type 0) (s t : Text) → All P s → All P t → All P (s ++ t)
All-append P [] t h k = k
All-append P (c ∷ cs) t (h, hs) k = (h, All-append P cs t hs k)

ends_line : (s : Text) → IsPlain s → All (λ c. c ≢ b'\n') s
ends_line [] h = tt
ends_line (c ∷ cs) ((no_tab, no_end), h) = (no_end, ends_line cs h)

pub join-no_end : (fs : List Text) → All IsPlain fs → All (λ c. c ≢ b'\n') (join fs)
unfolding join
join-no_end [] h = tt
join-no_end (f ∷ []) (h, hs) = ends_line f h
join-no_end (f ∷ (g ∷ gs)) (h, hs) =
    All-append _ f _ (ends_line f h) (ground arith, join-no_end (g ∷ gs) hs)

-- A line is read up to its end.
pub lines-line :
    (s t : Bytes) → All (λ c. c ≢ b'\n') s → lines (s ++ b'\n' ∷ t) ≡ (s ++ b'\n' ∷ []) ∷ lines t
unfolding lines
lines-line [] t h = refl
lines-line (c ∷ cs) t (no_end, h) =
    let other : (c == b'\n') ≡ false = ground arith in rw other (ap (push c) (lines-line cs t h))
