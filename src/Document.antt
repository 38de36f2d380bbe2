-- ===== src/Document.antt =====
-- api/services/documents.py, with the rows of api/models/document.py and document_change.py: the
-- documents, their change log, and `apply_change`, the one write path. A transaction is a function
-- from the tables to new tables and a result, so a rollback is the tables as they were. An id that
-- `uuid4` gives and the time that the database's clock gives are arguments.
pub mod Log
pub mod Head
mod Tests
use synapse_canvas.Base.{
  ℕ, suc, ◌+◌, List, [], ◌∷◌, ◌++◌, Bool, true, false, Option, none, some, ◌==◌, if◌then◌else◌,
  keep,
}
use synapse_canvas.Base.Dict.{Dict, lookup, insert, erase}
use synapse_canvas.ProseMirror.Utf16.{Text}
use synapse_canvas.ProseMirror.Node.{Node, elem, doc, no_attrs, nil}

-- One entry of "steps": a step computed here, or a client's, which is stored and relayed unread.
pub data Step : Type 0 where
  replace_step : ℕ → ℕ → List Node → Step
  client_step : ℕ → Step

-- `operation`: steps, with the AI query that they come from if any, or what a PATCH replaces.
pub data Operation : Type 0 where
  steps : List Step → Option ℕ → Operation
  patch : Option Node → Option Text → Operation

-- A row of `documents`; its id is the key of the table.
pub record Document : Type 0 where
  pub workspace_id : ℕ
  pub title : Text
  pub body : Node
  pub version : ℕ
  pub created_by : Option ℕ
  pub created_at : ℕ
  pub updated_at : ℕ

pub record DocumentChange : Type 0 where
  pub id : ℕ
  pub document_id : ℕ
  pub user_id : Option ℕ
  pub base_version : ℕ
  pub version : ℕ
  pub operation : Operation

pub record Db : Type 0 where
  pub documents : Dict Document
  pub changes : List DocumentChange

-- `DocumentSnapshot`: the row, read out with its id.
pub record DocumentSnapshot : Type 0 where
  pub id : ℕ
  pub row : Document

pub record AppliedChange : Type 0 where
  pub document : DocumentSnapshot
  pub change_id : ℕ
  pub base_version : ℕ
  pub operation : Operation
  pub user_id : Option ℕ

-- How a call ends: `raise` of NotFoundError, StaleDocumentVersionError or ValueError, or a value.
pub data Result (A : Type 0) : Type 0 where
  done : A → Result A
  not_found : Result A
  stale : DocumentSnapshot → Result A
  no_change : Result A

abbrev pub empty_document : Node
empty_document = elem doc no_attrs nil

abbrev pub snapshot : ℕ → Document → DocumentSnapshot
snapshot id row = record { id = id; row = row }

-- `patch_operation`
abbrev pub patch_operation : Option Text → Option Node → Operation
patch_operation title content = patch content title

abbrev pub get_or {ℓ} : {A : Type ℓ} → Option A → A → A
get_or none d = d
get_or (some a) d = a

unfoldable pub create_document :
    Db → ℕ → ℕ → ℕ → ℕ → Option ℕ → Text → Option Node → Db × DocumentSnapshot
create_document db id change_id now workspace_id created_by title content =
    let row : Document = record {
      workspace_id = workspace_id;
      title = title;
      body = get_or content empty_document;
      version = 1;
      created_by = created_by;
      created_at = now;
      updated_at = now;
    } in
    let change : DocumentChange = record {
      id = change_id;
      document_id = id;
      user_id = created_by;
      base_version = 0;
      version = row.version;
      operation = patch_operation (some title) (some row.body);
    } in
    (
      record { documents = insert id row db.documents; changes = db.changes ++ (change ∷ []) },
      snapshot id row,
    )

-- Scoped by workspace too.
abbrev pub in_workspace : ℕ → Option Document → Option Document
in_workspace workspace_id none = none
in_workspace workspace_id (some d) = if d.workspace_id == workspace_id then some d else none

unfoldable pub find_document : Db → ℕ → ℕ → Option Document
find_document db workspace_id id = in_workspace workspace_id (lookup id db.documents)

unfoldable pub get_document : Db → ℕ → ℕ → Result Document
unfolding find_document
get_document db workspace_id id = elim (find_document db workspace_id id) [
  | none ↦ not_found
  | some d ↦ done d
]

-- What a write asks for, beside the document that it is about.
pub record Change : Type 0 where
  pub user_id : Option ℕ
  pub base_version : ℕ
  pub operation : Operation
  pub content : Option Node
  pub title : Option Text

-- The row and the log entry that an accepted change writes.
pub write : Db → ℕ → Document → Change → ℕ → ℕ → Db × Result AppliedChange
write db id d c change_id now =
    let row = record d {
      body = get_or c.content d.body;
      title = get_or c.title d.title;
      version = d.version + 1;
      updated_at = now;
    } in
    let change : DocumentChange = record {
      id = change_id;
      document_id = id;
      user_id = c.user_id;
      base_version = c.base_version;
      version = d.version + 1;
      operation = c.operation;
    } in
    (
      record { documents = insert id row db.documents; changes = db.changes ++ (change ∷ []) },
      done (record {
        document = snapshot id row;
        change_id = change_id;
        base_version = c.base_version;
        operation = c.operation;
        user_id = c.user_id;
      }),
    )

unfoldable pub apply_change : Db → ℕ → ℕ → Change → ℕ → ℕ → Db × Result AppliedChange
unfolding find_document write
apply_change db workspace_id id c change_id now = elim (find_document db workspace_id id) [
  | none ↦ (db, not_found)
  | some d ↦
      if d.version == c.base_version
      then write db id d c change_id now
      else (db, stale (snapshot id d))
]

-- A PATCH; `None` leaves a field alone.
unfoldable pub update_document :
    Db → ℕ → ℕ → ℕ → Option ℕ → Option Text → Option Node → ℕ → ℕ → Db × Result AppliedChange
update_document db workspace_id id expected_version user_id none none change_id now =
    (db, no_change)
update_document db workspace_id id expected_version user_id title content change_id now =
    apply_change db workspace_id id
      (record {
        user_id = user_id;
        base_version = expected_version;
        operation = patch_operation title content;
        content = content;
        title = title;
      })
      change_id now

-- The log goes with the row: `ondelete="CASCADE"` on `document_changes.document_id`.
unfoldable pub delete_document : Db → ℕ → ℕ → Db × Result (Unit {0})
unfolding get_document
delete_document db workspace_id id = elim (find_document db workspace_id id) [
  | none ↦ (db, not_found)
  | some d ↦ (
    record {
      documents = erase id db.documents;
      changes = keep (λ c. if c.document_id == id then false else true) db.changes;
    },
    done tt,
  )
]
