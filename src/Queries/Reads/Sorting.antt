-- ===== src/Queries/Reads/Sorting.antt =====
-- `sortByCount`: the stable sort of a download's alternative names in core/ec/queries.cpp.
use mathlib.Core.List.{Perm}
use mathlib.Core.List.Perm
use amule_remote_qt.Base.{
  ℕ, ◌≤◌, ◌≡◌, refl, ◌∙◌, arith, List, [], ◌∷◌, ltb, ◌==◌, if◌then◌else◌, Bool-cases, inl, inr, All,
}
use amule_remote_qt.Ec.Bytes.{Text}
use amule_remote_qt.Queries.Reads.{insert_by_count, sort_by_count}

abbrev pub Entry : Type 0
Entry = Text × ℕ

-- Counts fall, or stay, along the list.
abbrev pub IsFalling : List Entry → Type 0
IsFalling [] = Unit
IsFalling (e ∷ es) = All (λ f. f.1 ≤ e.1) es × IsFalling es

-- The entries that have a count, in order.
unfoldable pub having : ℕ → List Entry → List Entry
having n [] = []
having n (e ∷ es) = if e.1 == n then e ∷ having n es else having n es

insert_by_count-perm : (e : Entry) (es : List Entry) → Perm (insert_by_count e es) (e ∷ es)
unfolding insert_by_count
insert_by_count-perm e [] = Perm.rfl
insert_by_count-perm e (f ∷ fs) = elim (Bool-cases (ltb e.1 f.1)) [
  | inl lower ↦ rw lower (Perm.trans (Perm.cons f (insert_by_count-perm e fs)) (Perm.swap e f fs))
  | inr higher ↦ rw higher Perm.rfl
]

sort_by_count-perm : (es : List Entry) → Perm (sort_by_count es) es
unfolding sort_by_count
sort_by_count-perm [] = Perm.rfl
sort_by_count-perm (e ∷ es) =
    Perm.trans (insert_by_count-perm e (sort_by_count es)) (Perm.cons e (sort_by_count-perm es))

insert_by_count-All :
    (n : ℕ) (e : Entry) (es : List Entry)
    → e.1 ≤ n
    → All (λ f. f.1 ≤ n) es
    → All (λ f. f.1 ≤ n) (insert_by_count e es)
unfolding insert_by_count
insert_by_count-All n e [] h hs = (h, tt)
insert_by_count-All n e (f ∷ fs) h hs = ground (arith, insert_by_count-All n e fs)

All-le : (m n : ℕ) (es : List Entry) → m ≤ n → All (λ f. f.1 ≤ m) es → All (λ f. f.1 ≤ n) es
All-le m n [] h hs = tt
All-le m n (e ∷ es) h (he, hes) = (omega arith, All-le m n es h hes)

insert_by_count-IsFalling :
    (e : Entry) (es : List Entry) → IsFalling es → IsFalling (insert_by_count e es)
unfolding insert_by_count
insert_by_count-IsFalling e [] h = (tt, tt)
insert_by_count-IsFalling e (f ∷ fs) (h, hs) = elim (Bool-cases (ltb e.1 f.1)) [
  | inl lower ↦
      rw lower (insert_by_count-All f.1 e fs (ground arith) h, insert_by_count-IsFalling e fs hs)
  | inr higher ↦ rw higher ((ground arith, All-le f.1 e.1 fs (ground arith) h), (h, hs))
]

sort_by_count-IsFalling : (es : List Entry) → IsFalling (sort_by_count es)
unfolding sort_by_count
sort_by_count-IsFalling [] = tt
sort_by_count-IsFalling (e ∷ es) =
    insert_by_count-IsFalling e (sort_by_count es) (sort_by_count-IsFalling es)

having-insert_by_count :
    (n : ℕ) (e : Entry) (es : List Entry) → having n (insert_by_count e es) ≡ having n (e ∷ es)
unfolding having insert_by_count
having-insert_by_count n e [] = refl
having-insert_by_count n e (f ∷ fs) = ground (arith, having-insert_by_count n e fs)

having-cons :
    (n : ℕ) (e : Entry) (xs ys : List Entry)
    → having n xs ≡ having n ys
    → having n (e ∷ xs) ≡ having n (e ∷ ys)
unfolding having
having-cons n e xs ys h = ground arith

having-sort_by_count : (n : ℕ) (es : List Entry) → having n (sort_by_count es) ≡ having n es
unfolding sort_by_count
having-sort_by_count n [] = refl
having-sort_by_count n (e ∷ es) =
    having-insert_by_count n e (sort_by_count es)
    ∙ having-cons n e (sort_by_count es) es (having-sort_by_count n es)

-- The sort keeps the entries, puts the most reported first, and keeps the order of entries that
-- are reported equally often.
pub sort_by_count_stable :
    (es : List Entry)
    → Perm (sort_by_count es) es
      × IsFalling (sort_by_count es)
      × ((n : ℕ) → having n (sort_by_count es) ≡ having n es)
sort_by_count_stable es =
    (sort_by_count-perm es, sort_by_count-IsFalling es, λ n. having-sort_by_count n es)
