-- ===== src/App/SpeedGraph/Window.antt =====
-- The samples of app/speedgraph.cpp are the latest ones.
use amule_remote_qt.Base.{
  some, ℕ, zero, suc, ◌+◌, ◌-◌, ◌≡◌, refl, sym, ap, ◌∙◌, List, [], ◌∷◌, ◌++◌, ltb, length, drop,
  arith, Bool-cases, inl, inr, append_assoc, length-append, length-drop, drop-append_le, append-nil,
}
use amule_remote_qt.App.SpeedGraph.{SpeedGraph, max_samples, trim, add_sample, load}

-- The last samples of a list.
abbrev pub latest : List ℕ → List ℕ
latest xs = drop (length xs - max_samples) xs

drop_none : (n : ℕ) (xs : List ℕ) → n ≡ 0 → drop n xs ≡ xs
drop_none n xs e = rw e refl

drop-suc : (n k x : ℕ) (xs : List ℕ) → n ≡ suc k → drop n (x ∷ xs) ≡ drop k xs
drop-suc n k x xs e = rw e refl

pub trim-latest : (xs : List ℕ) → trim xs ≡ latest xs
unfolding trim
trim-latest [] = sym (drop_none (0 - max_samples) [] (omega arith))
trim-latest (x ∷ xs) = elim (Bool-cases (ltb max_samples (length (x ∷ xs)))) [
  | inl long ↦ rw long (
      trim-latest xs
      ∙ sym
          (drop-suc (length (x ∷ xs) - max_samples) (length xs - max_samples) x xs (ground arith)))
  | inr short ↦ rw short (sym (drop_none (length (x ∷ xs) - max_samples) (x ∷ xs) (ground arith)))
]

drop-nil : (n : ℕ) → drop {A = ℕ} n [] ≡ []
drop-nil zero = refl
drop-nil (suc n) = refl

drop-drop : (m n : ℕ) (xs : List ℕ) → drop m (drop n xs) ≡ drop (n + m) xs
drop-drop m zero xs = ap (λ k. drop k xs) (omega arith)
drop-drop m (suc n) [] = drop-nil m ∙ sym (drop-nil (suc n + m))
drop-drop m (suc n) (x ∷ xs) =
    drop-drop m n xs ∙ sym (drop-suc (suc n + m) (n + m) x xs (omega arith))

-- Cutting before an append does not change what the cut after it leaves.
latest-append : (xs ys : List ℕ) → latest (latest xs ++ ys) ≡ latest (xs ++ ys)
latest-append xs ys =
    let n = length xs - max_samples in
    let m = length (drop n xs ++ ys) - max_samples in
    ap (drop m) (sym (drop-append_le n xs ys (omega arith)))
    ∙ drop-drop m n (xs ++ ys)
    ∙ ap (λ k. drop k (xs ++ ys))
        (omega (arith, length-append (drop n xs) ys, length-append xs ys, length-drop n xs))

pub record Sample : Type 0 where
  pub down : ℕ
  pub up : ℕ

unfoldable pub add_samples : List Sample → SpeedGraph → SpeedGraph
add_samples [] g = g
add_samples (s ∷ ss) g = add_samples ss (add_sample s.down s.up g)

abbrev pub downs : List Sample → List ℕ
downs [] = []
downs (s ∷ ss) = s.down ∷ downs ss

abbrev pub ups : List Sample → List ℕ
ups [] = []
ups (s ∷ ss) = s.up ∷ ups ss

latest-step :
    (x : ℕ) (now before : List ℕ)
    → now ≡ latest before
    → trim (now ++ x ∷ []) ≡ latest (before ++ x ∷ [])
latest-step x now before e =
    trim-latest (now ++ x ∷ []) ∙ ap (λ xs. latest (xs ++ x ∷ [])) e ∙ latest-append before (x ∷ [])

add_samples-down :
    (ss : List Sample) (before : List ℕ) (g : SpeedGraph)
    → g.down ≡ latest before
    → (add_samples ss g).down ≡ latest (before ++ downs ss)
unfolding add_samples add_sample
add_samples-down [] before g e = e ∙ ap latest (sym (append-nil before))
add_samples-down (s ∷ ss) before g e =
    add_samples-down ss (before ++ s.down ∷ []) (add_sample s.down s.up g)
      (latest-step s.down g.down before e)
    ∙ ap latest (append_assoc before (s.down ∷ []) (downs ss))

add_samples-up :
    (ss : List Sample) (before : List ℕ) (g : SpeedGraph)
    → g.up ≡ latest before
    → (add_samples ss g).up ≡ latest (before ++ ups ss)
unfolding add_samples add_sample
add_samples-up [] before g e = e ∙ ap latest (sym (append-nil before))
add_samples-up (s ∷ ss) before g e =
    add_samples-up ss (before ++ s.up ∷ []) (add_sample s.down s.up g)
      (latest-step s.up g.up before e)
    ∙ ap latest (append_assoc before (s.up ∷ []) (ups ss))

-- The graph that a file and then any samples leave holds the latest of all of them in order, as
-- many as it has room for.
pub add_samples-latest :
    (ss : List Sample) (down up : List ℕ) (g : SpeedGraph)
    → ((add_samples ss (load (some (down, up)) g)).down ≡ latest (down ++ downs ss))
      × ((add_samples ss (load (some (down, up)) g)).up ≡ latest (up ++ ups ss))
unfolding load
add_samples-latest ss down up g = (
  add_samples-down ss down (load (some (down, up)) g) (trim-latest down),
  add_samples-up ss up (load (some (down, up)) g) (trim-latest up),
)
