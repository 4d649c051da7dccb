-- ===== src/Queries/Sources/Update.antt =====
-- `fetchClientUpdate` of core/ec/queries.cpp as an update of a finite map.
use amule_remote_qt.Base.{
  ℕ, ◌≡◌, refl, sym, ap, ap₂, ◌∙◌, arith, Option, none, some, List, [], ◌∷◌, ◌++◌, append_assoc,
  append-nil, ◌==◌, if◌then◌else◌, get_or, Bool-cases, inl, inr, ==_iff,
}
use amule_remote_qt.Ec.Tag.{Tag, Tags, nil, cons, children}
use amule_remote_qt.Model.Types.{SourceClient, new_source_client}
use amule_remote_qt.Queries.Sources.{
  Sources, ToDouble, merge_client, lookup, insert, contains, keep_only, entry_id, merge_entry,
  merge_one, merge_entries, update_sources,
}

pub lookup-insert :
    (k j : ℕ) (c : SourceClient) (m : Sources)
    → lookup j (insert k c m) ≡ (if k == j then some c else lookup j m)
unfolding lookup insert
lookup-insert k j c [] = refl
lookup-insert k j c ((i, d) ∷ m) = ground (arith, lookup-insert k j c m)

pub lookup-keep_only :
    (ids : List ℕ) (k : ℕ) (m : Sources)
    → lookup k (keep_only ids m) ≡ (if contains k ids then lookup k m else none)
unfolding lookup keep_only
lookup-keep_only ids k [] = ground arith
lookup-keep_only ids k ((j, c) ∷ m) = elim (Bool-cases (j == k)) [
  | inl hit ↦ let e : j ≡ k = (==_iff j k).0 hit in rw e (ground (arith, lookup-keep_only ids k m))
  | inr miss ↦ elim (Bool-cases (contains j ids)) [
    | inl kept ↦ rw kept (ground (arith, lookup-keep_only ids k m))
    | inr gone ↦ rw gone (ground (arith, lookup-keep_only ids k m))
  ]
]

abbrev cons_some : Option ℕ → List ℕ → List ℕ
cons_some none ids = ids
cons_some (some id) ids = id ∷ ids

-- The ids that the container lists.
unfoldable pub entry_ids : Tags → List ℕ
entry_ids nil = []
entry_ids (cons entry ts) = cons_some (entry_id entry) (entry_ids ts)

module _ (to_double : ToDouble) where
  -- One entry's part in the data of source `k`.
  abbrev merge_into : ℕ → Option ℕ → Tag → Option SourceClient → Option SourceClient
  merge_into k none entry old = old
  merge_into k (some v) entry old =
      if v == k
      then some (merge_client to_double (record (get_or new_source_client old) { id = k }) entry)
      else old

  -- What becomes of one source: each entry with its id is merged into it, in turn.
  unfoldable pub source_after : ℕ → Tags → Option SourceClient → Option SourceClient
  source_after k nil old = old
  source_after k (cons entry ts) old = source_after k ts (merge_into k (entry_id entry) entry old)

  merge_one-ids :
      (id : Option ℕ) (entry : Tag) (seen : List ℕ × Sources) (more : List ℕ)
      → (merge_one to_double id entry seen).0 ++ more ≡ seen.0 ++ cons_some id more
  unfolding merge_one
  merge_one-ids none entry seen more = refl
  merge_one-ids (some v) entry seen more = append_assoc seen.0 (v ∷ []) more

  merge_entries-ids :
      (ts : Tags) (seen : List ℕ × Sources)
      → (merge_entries to_double ts seen).0 ≡ seen.0 ++ entry_ids ts
  unfolding merge_entries entry_ids
  merge_entries-ids nil seen = sym (append-nil seen.0)
  merge_entries-ids (cons entry ts) seen =
      merge_entries-ids ts (merge_one to_double (entry_id entry) entry seen)
      ∙ merge_one-ids (entry_id entry) entry seen (entry_ids ts)

  lookup-merge_one :
      (k : ℕ) (id : Option ℕ) (entry : Tag) (seen : List ℕ × Sources)
      → lookup k (merge_one to_double id entry seen).1 ≡ merge_into k id entry (lookup k seen.1)
  unfolding merge_one merge_entry
  lookup-merge_one k none entry seen = refl
  lookup-merge_one k (some v) entry seen = lookup-insert v k _ seen.1 ∙ elim (Bool-cases (v == k)) [
    | inl hit ↦ let e : v ≡ k = (==_iff v k).0 hit in rw e refl
    | inr miss ↦ rw miss refl
  ]

  lookup-merge_entries :
      (k : ℕ) (ts : Tags) (seen : List ℕ × Sources)
      → lookup k (merge_entries to_double ts seen).1 ≡ source_after k ts (lookup k seen.1)
  unfolding merge_entries source_after
  lookup-merge_entries k nil seen = refl
  lookup-merge_entries k (cons entry ts) seen =
      lookup-merge_entries k ts (merge_one to_double (entry_id entry) entry seen)
      ∙ ap (source_after k ts) (lookup-merge_one k (entry_id entry) entry seen)

  -- After an update with a container, a source is known exactly if the container lists its id, and
  -- it holds its former data, or that of a new source, with the entries of its id merged in order.
  pub lookup-update_sources :
      (k : ℕ) (container : Tag) (m : Sources)
      → lookup k (update_sources to_double (some container) m) ≡ (
          if contains k (entry_ids (children container))
          then source_after k (children container) (lookup k m)
          else none)
  unfolding update_sources
  lookup-update_sources k container m =
      let merged = merge_entries to_double (children container) ([], m) in
      lookup-keep_only merged.0 k merged.1
      ∙ ap₂ (λ ids c. if contains k ids then c else none)
          (merge_entries-ids (children container) ([], m))
          (lookup-merge_entries k (children container) ([], m))
