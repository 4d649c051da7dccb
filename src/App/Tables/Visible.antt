-- ===== src/App/Tables/Visible.antt =====
-- The rows of SourceTableModel in app/sourcetablemodel.cpp.
use amule_remote_qt.Base.{
  zero, suc, keep, sym, ap, ◌∙◌, false, arith, ℕ, ◌≡◌, refl, List, [], ◌∷◌, ◌==◌, Bool-cases, inl,
  inr,
}
use amule_remote_qt.Model.Types.{SourceClient}
use amule_remote_qt.App.Tables.{
  SourceTable, new_source_table, of_file, listed, set_rows, rebuild, set_sources, set_file_ecid,
}

-- The calls on the table.
pub data SourceCall : Type 0 where
  new_sources : List SourceClient → SourceCall
  new_file : ℕ → SourceCall

unfoldable pub take_call : SourceCall → SourceTable → SourceTable
take_call (new_sources cs) t = set_sources cs t
take_call (new_file ecid) t = set_file_ecid ecid t

unfoldable pub take_calls : List SourceCall → SourceTable → SourceTable
take_calls [] t = t
take_calls (c ∷ cs) t = take_calls cs (take_call c t)

-- What the last calls have brought.
unfoldable pub last_sources : List SourceClient → List SourceCall → List SourceClient
last_sources cs [] = cs
last_sources cs (new_sources ds ∷ calls) = last_sources ds calls
last_sources cs (new_file ecid ∷ calls) = last_sources cs calls

unfoldable pub last_file : ℕ → List SourceCall → ℕ
last_file ecid [] = ecid
last_file ecid (new_sources cs ∷ calls) = last_file ecid calls
last_file ecid (new_file other ∷ calls) = last_file other calls

-- The sources of a file, and none of no file.
abbrev pub sources_of : ℕ → List SourceClient → List SourceClient
sources_of zero cs = []
sources_of (suc n) cs = keep (λ c. c.file_ecid == suc n) cs

of_file-keep :
    (ecid : ℕ) (cs : List SourceClient) → of_file ecid cs ≡ keep (λ c. c.file_ecid == ecid) cs
unfolding of_file
of_file-keep ecid [] = refl
of_file-keep ecid (c ∷ cs) = rw (of_file-keep ecid cs) refl

listed-sources_of : (ecid : ℕ) (cs : List SourceClient) → listed ecid cs ≡ sources_of ecid cs
unfolding listed
listed-sources_of zero cs = refl
listed-sources_of (suc n) cs =
    let some_file : (suc n == 0) ≡ false = ground arith in rw some_file (of_file-keep (suc n) cs)

-- What the table holds of the calls.
record IsCurrent (ecid : ℕ) (cs : List SourceClient) (t : SourceTable) : Type 0 where
  file : t.file_ecid ≡ ecid
  all : t.all ≡ cs
  visible : t.visible ≡ listed ecid cs

set_file-IsCurrent :
    (other ecid : ℕ) (cs : List SourceClient) (t : SourceTable)
    → IsCurrent ecid cs t
    → IsCurrent other cs (set_file_ecid other t)
unfolding set_file_ecid rebuild set_rows
set_file-IsCurrent other ecid cs t h = elim (Bool-cases (t.file_ecid == other)) [
  | inl e ↦
      let same : t.file_ecid ≡ other = ground arith in
      rw e (record {
        file = same;
        all = h.all;
        visible = h.visible ∙ ap (λ n. listed n cs) (sym h.file ∙ same);
      })
  | inr e ↦ rw e (record { file = refl; all = h.all; visible = ap (listed other) h.all })
]

take_calls-IsCurrent :
    (calls : List SourceCall) (ecid : ℕ) (cs : List SourceClient) (t : SourceTable)
    → IsCurrent ecid cs t
    → IsCurrent (last_file ecid calls) (last_sources cs calls) (take_calls calls t)
unfolding take_calls take_call last_file last_sources set_sources rebuild set_rows
take_calls-IsCurrent [] ecid cs t h = h
take_calls-IsCurrent (new_sources ds ∷ calls) ecid cs t h =
    take_calls-IsCurrent calls ecid ds _
      (record { file = h.file; all = refl; visible = ap (λ n. listed n ds) h.file })
take_calls-IsCurrent (new_file other ∷ calls) ecid cs t h =
    take_calls-IsCurrent calls other cs _ (set_file-IsCurrent other ecid cs t h)

-- After any calls the rows are, of the sources that came last, those of the file that was selected
-- last, all of them in order, and none where no file is selected.
pub take_calls-visible :
    (calls : List SourceCall)
    → (take_calls calls new_source_table).visible
      ≡ sources_of (last_file 0 calls) (last_sources [] calls)
take_calls-visible calls =
    (take_calls-IsCurrent calls 0 [] new_source_table
      (record { file = refl; all = refl; visible = sym (listed-sources_of 0 []) })).visible
    ∙ listed-sources_of (last_file 0 calls) (last_sources [] calls)
