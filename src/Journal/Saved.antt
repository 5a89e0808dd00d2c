-- ===== src/Journal/Saved.antt =====
-- execution_store.py: the files that the operations leave, and the validation of `_save`.
use candle_mind.Base.Text.{text_eq_iff}
use candle_mind.Base.{arith, true, &&_split, Bool-cases, Option-cases, inl, inr}
use candle_mind.Base.Text.{Text}
use candle_mind.Base.{refl, some, All-append, [], split_if, ◌∷◌, none, ◌≡◌, List, Option, Bool, All}
use candle_mind.Journal.Validate.{is_identity, validate_document}
use candle_mind.Journal.Store.{
  edit, load_file, load, required, at_path, saved, edited, Edit, save, File, put, commit, Disk,
}
use candle_mind.Base.Table.{find, select, update_where}
use candle_mind.Journal.Document.{Fault, Document, Reply, done, fault}

abbrev pub IsSaved : File → Type 0
IsSaved f = validate_document f.network f.symbol f.document ≡ none

unfoldable pub AllSaved : Disk → Type 0
AllSaved disk = All IsSaved disk.files × All IsSaved disk.archived

moved-Saved :
    (doc : Document) (f : File)
    → validate_document doc.network doc.symbol doc ≡ none
    → at_path doc.network doc.symbol f ≡ true
    → validate_document f.network f.symbol doc ≡ none
moved-Saved doc f valid here =
    let (network, symbol) = &&_split _ _ here in
    rw (
      (text_eq_iff f.network doc.network).0 network,
      (text_eq_iff f.symbol doc.symbol).0 symbol,
      valid,
    )

update_where-Saved :
    (doc : Document) (fs : List File)
    → validate_document doc.network doc.symbol doc ≡ none
    → All IsSaved fs
    → All IsSaved
        (update_where (at_path doc.network doc.symbol) (λ f. record f { document = doc }) fs)
unfolding update_where
update_where-Saved doc [] valid h = h
update_where-Saved doc (f ∷ fs) valid h = (
  split_if IsSaved (at_path doc.network doc.symbol f) (λ here. moved-Saved doc f valid here)
      (λ _. h.0),
  update_where-Saved doc fs valid h.1,
)

put-Saved :
    (doc : Document) (disk : Disk)
    → validate_document doc.network doc.symbol doc ≡ none
    → AllSaved disk
    → AllSaved (put doc disk)
unfolding put AllSaved
put-Saved doc disk valid (files, archived) =
    split_if AllSaved _ (λ _. (update_where-Saved doc disk.files valid files, archived))
      (λ _. (All-append IsSaved disk.files _ files (valid, tt), archived))

pub select-Saved : (p : File → Bool) (fs : List File) → All IsSaved fs → All IsSaved (select p fs)
unfolding select
select-Saved p [] h = h
select-Saved p (f ∷ fs) h =
    split_if (All IsSaved) (p f) (λ _. (h.0, select-Saved p fs h.1)) (λ _. select-Saved p fs h.1)

unfoldable pub Leaves : {A : Type 0} → Reply A × Disk → Type 0
Leaves r = AllSaved r.1

pub kept : {A : Type 0} (r : Reply A) (disk : Disk) → AllSaved disk → Leaves (r, disk)
unfolding Leaves
kept r disk h = h

pub save-Saved :
    {A : Type 0} (a : A) (doc : Document) (disk : Disk) (o : Option Fault)
    → validate_document doc.network doc.symbol doc ≡ o
    → AllSaved disk
    → Leaves (saved a doc disk o)
unfolding put Leaves
save-Saved a doc disk (some f) e h = h
save-Saved a doc disk none e h = put-Saved doc disk e h

edited-Saved :
    {A : Type 0} (now : Text) (disk : Disk) (r : Edit A)
    → AllSaved disk
    → Leaves (edited now disk r)
unfolding commit save
edited-Saved now disk (fault f) h = kept _ disk h
edited-Saved now disk (done (a, none)) h = kept _ disk h
edited-Saved now disk (done (a, some doc)) h = save-Saved a _ disk _ refl h

load_file-Saved :
    (network symbol : Text) (o : Option File) (doc : Document)
    → load_file network symbol o ≡ done (some doc)
    → validate_document network symbol doc ≡ none
load_file-Saved network symbol none doc h = ground arith
load_file-Saved network symbol (some f) doc h =
    elim (Option-cases (validate_document network symbol f.document)) [
      | inl valid ↦ ground (arith, valid)
      | inr (e, invalid) ↦ ground (arith, invalid)
    ]

pub load-Saved :
    (network symbol : Text) (disk : Disk) (doc : Document)
    → load network symbol disk ≡ done (some doc)
    → validate_document network symbol doc ≡ none
unfolding load
load-Saved network symbol disk doc h = elim (Bool-cases (is_identity network symbol)) [
  | inl known ↦
      load_file-Saved network symbol (find (at_path network symbol) disk.files) doc
        (ground (arith, known))
  | inr unknown_identity ↦ ground (arith, unknown_identity)
]

required-Saved :
    {A : Type 0} (now : Text) (disk : Disk) (step : Document → Edit A) (r : Reply (Option Document))
    → AllSaved disk
    → Leaves (required now disk step r)
required-Saved now disk step (fault f) h = kept _ disk h
required-Saved now disk step (done none) h = kept _ disk h
required-Saved now disk step (done (some doc)) h = edited-Saved now disk (step doc) h

pub edit-Saved :
    {A : Type 0} (network symbol now : Text) (step : Document → Edit A) (disk : Disk)
    → AllSaved disk
    → Leaves (edit network symbol now step disk)
unfolding edit
edit-Saved network symbol now step disk h =
    required-Saved now disk step (load network symbol disk) h
