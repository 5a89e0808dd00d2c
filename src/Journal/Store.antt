-- ===== src/Journal/Store.antt =====
-- execution_store.py: the files of the journal, and how an operation loads, changes and saves one.
use candle_mind.Journal.Validate.{is_identity, validate_document}
use candle_mind.Base.Table.{find, update_where}
use candle_mind.Base.Text.{text_eq, Text}
use candle_mind.Base.{◌∷◌, ◌++◌, ◌&&◌, none, is_some, some, if◌then◌else◌, Bool, Option, [], List}
use candle_mind.Journal.Document.{
  fault, done, derive_counters, has_decision_id, Reply, Fault, Document, Decision,
}

-- `execution_{network}_{symbol}.json` and the document in it.
pub record File : Type 0 where
  pub network : Text
  pub symbol : Text
  pub document : Document

pub record Disk : Type 0 where
  pub files : List File
  pub archived : List File

abbrev pub blank : Disk
blank = record { files = []; archived = [] }

abbrev pub at_path : Text → Text → File → Bool
at_path network symbol f = text_eq f.network network && text_eq f.symbol symbol

abbrev pub loaded : Option Fault → Document → Reply (Option Document)
loaded none doc = done (some doc)
loaded (some f) doc = fault f

abbrev pub load_file : Text → Text → Option File → Reply (Option Document)
load_file network symbol none = done none
load_file network symbol (some f) = loaded (validate_document network symbol f.document) f.document

-- `load`, of a file of the current schema.
unfoldable pub load : Text → Text → Disk → Reply (Option Document)
load network symbol disk =
    if is_identity network symbol
    then load_file network symbol (find (at_path network symbol) disk.files)
    else fault Fault.value_error

-- `os.replace(temporary_name, path)`
unfoldable pub put : Document → Disk → Disk
put doc disk =
    let place = at_path doc.network doc.symbol in
    if is_some (find place disk.files)
    then record disk { files = update_where place (λ f. record f { document = doc }) disk.files }
    else record disk {
      files =
          disk.files ++ record { network = doc.network; symbol = doc.symbol; document = doc } ∷ [];
    }

abbrev pub saved : {A : Type 0} → A → Document → Disk → Option Fault → Reply A × Disk
unfolding put
saved a doc disk (some f) = (fault f, disk)
saved a doc disk none = (done a, put doc disk)

-- `_save`: a document that is not valid is not written. What is returned then is `a`.
unfoldable pub save : {A : Type 0} → A → Document → Disk → Reply A × Disk
save a doc disk = saved a doc disk (validate_document doc.network doc.symbol doc)

-- `_commit`
unfoldable pub commit : {A : Type 0} → A → Text → Document → Disk → Reply A × Disk
commit a now doc disk =
    save a (record doc { updated_at = now; counters = derive_counters doc.decisions }) disk

-- What an operation makes of the document: its result, and the document to commit, if any.
abbrev pub Edit : Type 0 → Type 0
Edit A = Reply (A × Option Document)

abbrev pub edited : {A : Type 0} → Text → Disk → Edit A → Reply A × Disk
edited now disk (fault f) = (fault f, disk)
edited now disk (done (a, none)) = (done a, disk)
edited now disk (done (a, some doc)) = commit a now doc disk

abbrev pub required :
    {A : Type 0} → Text → Disk → (Document → Edit A) → Reply (Option Document) → Reply A × Disk
required now disk step (fault f) = (fault f, disk)
required now disk step (done none) = (fault Fault.store_error, disk)
required now disk step (done (some doc)) = edited now disk (step doc)

-- `_require`, the body of an operation, and `_commit`.
unfoldable pub edit :
    {A : Type 0} → Text → Text → Text → (Document → Edit A) → Disk → Reply A × Disk
edit network symbol now step disk = required now disk step (load network symbol disk)

-- `document["decisions"][id] = …` of a decision that is there.
unfoldable pub set_decision : Decision → Document → Document
set_decision d doc = record doc {
  decisions = update_where (has_decision_id d.decision_id) (λ _. d) doc.decisions;
}
