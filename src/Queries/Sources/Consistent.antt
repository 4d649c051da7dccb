-- ===== src/Queries/Sources/Consistent.antt =====
-- `fetchClientUpdate` of core/ec/queries.cpp keeps the map consistent.
use amule_remote_qt.Base.{
  ℕ, ◌≡◌, refl, arith, Option, none, some, List, [], ◌∷◌, ◌==◌, Bool-cases, inl, inr, ==_iff,
}
use amule_remote_qt.Ec.Tag.{Tag, Tags, nil, cons, children}
use amule_remote_qt.Model.Types.{SourceClient}
use amule_remote_qt.Queries.Sources.{
  Sources, ToDouble, merge_client, lookup, insert, contains, keep_only, entry_id, merge_entry,
  merge_one, merge_entries, update_sources,
}
use amule_remote_qt.Queries.Sources.Update.{lookup-insert, lookup-keep_only}

-- Every source is filed under its own id, and no id twice.
abbrev pub IsConsistent : Sources → Type 0
IsConsistent [] = Unit {0}
IsConsistent ((j, c) ∷ m) = (c.id ≡ j) × (lookup j m ≡ none) × IsConsistent m

insert-IsConsistent :
    (k : ℕ) (c : SourceClient) (m : Sources)
    → c.id ≡ k
    → IsConsistent m
    → IsConsistent (insert k c m)
unfolding lookup insert
insert-IsConsistent k c [] h hm = (h, refl, tt)
insert-IsConsistent k c ((j, d) ∷ m) h (hd, fresh, hm) = elim (Bool-cases (j == k)) [
  | inl hit ↦ let e : j ≡ k = (==_iff j k).0 hit in rw hit (h, rw (← e) fresh, hm)
  | inr miss ↦ rw miss (hd, ground (arith, lookup-insert k j c m), insert-IsConsistent k c m h hm)
]

keep_only-IsConsistent :
    (ids : List ℕ) (m : Sources) → IsConsistent m → IsConsistent (keep_only ids m)
unfolding keep_only
keep_only-IsConsistent ids [] h = tt
keep_only-IsConsistent ids ((j, c) ∷ m) (hc, fresh, hm) = elim (Bool-cases (contains j ids)) [
  | inl kept ↦
      rw kept (hc, ground (arith, lookup-keep_only ids j m), keep_only-IsConsistent ids m hm)
  | inr gone ↦ rw gone (keep_only-IsConsistent ids m hm)
]

module _ (to_double : ToDouble) where
  merge_one-IsConsistent :
      (id : Option ℕ) (entry : Tag) (seen : List ℕ × Sources)
      → IsConsistent seen.1
      → IsConsistent (merge_one to_double id entry seen).1
  unfolding merge_one merge_entry merge_client
  merge_one-IsConsistent none entry seen h = h
  merge_one-IsConsistent (some v) entry seen h = insert-IsConsistent v _ seen.1 refl h

  merge_entries-IsConsistent :
      (ts : Tags) (seen : List ℕ × Sources)
      → IsConsistent seen.1
      → IsConsistent (merge_entries to_double ts seen).1
  unfolding merge_entries
  merge_entries-IsConsistent nil seen h = h
  merge_entries-IsConsistent (cons entry ts) seen h =
      merge_entries-IsConsistent ts (merge_one to_double (entry_id entry) entry seen)
        (merge_one-IsConsistent (entry_id entry) entry seen h)

  -- An update keeps every source filed under its own id, and no id twice.
  pub update_sources-IsConsistent :
      (container : Option Tag) (m : Sources)
      → IsConsistent m
      → IsConsistent (update_sources to_double container m)
  unfolding update_sources
  update_sources-IsConsistent none m h = h
  update_sources-IsConsistent (some container) m h =
      keep_only-IsConsistent (merge_entries to_double (children container) ([], m)).0 _
        (merge_entries-IsConsistent (children container) ([], m) h)
