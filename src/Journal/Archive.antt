-- ===== src/Journal/Archive.antt =====
-- execution_store.py: `archive`.
use candle_mind.Journal.Validate.{is_identity}
use candle_mind.Base.{
  inr, ◌++◌, [], inl, true, arith, Bool-cases, ◌∷◌, none, split_if, refl, all, some, not, ◌≡◌, Bool,
  List, Option,
}
use candle_mind.Journal.Store.{at_path, File, Disk, load}
use candle_mind.Base.Table.{select, find}
use candle_mind.Base.Text.{Text}
use candle_mind.Journal.Results.{file_of, is_settled, moved, archive}
use candle_mind.Journal.Document.{Fault, Document, Reply, done, fault}

find-select : (p : File → Bool) (fs : List File) → find p (select (λ f. not (p f)) fs) ≡ none
unfolding find select
find-select p [] = refl
find-select p (f ∷ fs) = ground (arith, find-select p fs)

-- What `archive` answers, and what it leaves of the disk.
abbrev pub IsArchived : Text → Text → Disk → Reply (Option File) × Disk → Type 0
IsArchived network symbol disk (fault f, disk') = disk' ≡ disk
IsArchived network symbol disk (done none, disk') =
    (disk' ≡ disk) × (load network symbol disk ≡ done none)
IsArchived network symbol disk (done (some f), disk') =
    (load network symbol disk ≡ done (some f.document))
    × (all is_settled f.document.decisions ≡ true)
    × (load network symbol disk' ≡ done none)
    × (disk'.archived ≡ disk.archived ++ f ∷ [])

gone :
    (network symbol : Text) (disk : Disk) (doc : Document) (archived : List File)
    → load network symbol disk ≡ done (some doc)
    → load network symbol (record {
      files = select (λ f. not (at_path network symbol f)) disk.files;
      archived = archived;
    })
      ≡ done none
unfolding load
gone network symbol disk doc archived h = elim (Bool-cases (is_identity network symbol)) [
  | inl known ↦ rw (known, find-select (at_path network symbol) disk.files) refl
  | inr unknown_identity ↦ ground (arith, unknown_identity)
]

moved-IsArchived :
    (network symbol : Text) (disk : Disk) (r : Reply (Option Document))
    → load network symbol disk ≡ r
    → IsArchived network symbol disk (moved network symbol disk r)
moved-IsArchived network symbol disk (fault f) e = refl
moved-IsArchived network symbol disk (done none) e = (refl, e)
moved-IsArchived network symbol disk (done (some doc)) e =
    split_if (IsArchived network symbol disk) (all is_settled doc.decisions)
      {x = (
        done (some (file_of network symbol doc)),
        record {
          files = select (λ f. not (at_path network symbol f)) disk.files;
          archived = disk.archived ++ file_of network symbol doc ∷ [];
        },
      )}
      {y = (fault Fault.conflict, disk)}
      (λ settled. (e, settled, gone network symbol disk doc _ e, refl)) (λ _. refl)

-- `archive` moves the document that was loaded into the archive only if every decision of it is
-- committed or failed and every order has a terminal result; no journal is there afterwards. Where it
-- raises, or where there was no journal, nothing is moved.
pub archive-IsArchived :
    (network symbol : Text) (disk : Disk)
    → IsArchived network symbol disk (archive network symbol disk)
unfolding archive
archive-IsArchived network symbol disk =
    moved-IsArchived network symbol disk (load network symbol disk) refl
