-- ===== src/Queries/Apply.antt =====
-- api/services/ai_queries.py, `_check_bounds`, the start of `create_query`, `_edit_for` and
-- `apply_query`: a response becomes an edit, through `documents.apply_change`.
pub mod Once
use synapse_canvas.Base.{
  ℕ, ◌+◌, ◌-◌, ◌≤◌, ◌<◌, ◌≡◌, ◌≢◌, refl, sym, ap, ◌∙◌, ◌⊎◌, inl, inr, List, [], ◌∷◌, arith, Bool,
  true, false, not, ◌&&◌, ◌||◌, Option, none, some, ltb, leb, ◌==◌, if◌then◌else◌, Bool-cases,
  Option-cases, is_some,
}
use synapse_canvas.ProseMirror.Utf16.{Text}
use synapse_canvas.ProseMirror.Node.{Node, content_size, content}
use synapse_canvas.ProseMirror.Edit.{Edit, replace_selection, insert_after, snap_selection}
use synapse_canvas.ProseMirror.Edit.Inline.{strip}
use synapse_canvas.Document.{
  Db, Document, DocumentSnapshot, snapshot, Change, AppliedChange, Operation, steps, replace_step,
  find_document, apply_change,
}
use synapse_canvas.Document
use synapse_canvas.Queries.{
  AiQuery, Mode, continue_text, rewrite, summarize, ask, sources, Status, completed,
}

-- How a call ends: an exception's code, or a value.
pub data Result {ℓ} (A : Type ℓ) : Type ℓ where
  ok : A → Result A
  ai_query_not_completed selection_invalid document_not_found : Result A
  stale_version : DocumentSnapshot → Result A

-- Positions are natural numbers here.
abbrev pub inside : ℕ → Option ℕ → Bool
inside size none = true
inside size (some position) = leb position size

-- `_check_bounds`; true where it raises nothing.
unfoldable pub check_bounds : Node → Option ℕ → Option ℕ → Bool
check_bounds doc a b = inside (content_size doc) a && inside (content_size doc) b

abbrev pub is_rewrite : Mode → Bool
is_rewrite rewrite = true
is_rewrite _ = false

abbrev pub is_completed : Status → Bool
is_completed completed = true
is_completed _ = false

abbrev pub text_or_empty : Option Text → Text
text_or_empty none = []
text_or_empty (some t) = t

abbrev pub is_blank_text : Text → Bool
is_blank_text t = elim (strip t) [ [] ↦ true | _ ∷ _ ↦ false ]

-- The rewrite of `_edit_for`.
pub rewrite_edit : Node → Option ℕ → Option ℕ → Text → Option Edit
rewrite_edit doc (some start) (some stop) reply =
    if ltb start stop then replace_selection doc start stop reply else none
rewrite_edit doc _ _ reply = none

-- `_edit_for`; none is SelectionError.
unfoldable pub edit_for : AiQuery → Node → Option ℕ → Option ℕ → Option Edit
unfolding rewrite_edit
edit_for query doc start stop =
    if is_rewrite query.mode
    then rewrite_edit doc start stop (text_or_empty query.response)
    else some (insert_after doc stop (text_or_empty query.response))

abbrev pub or_stored : Option ℕ → Option ℕ → Option ℕ
or_stored none stored = stored
or_stored (some given) stored = some given

abbrev pub applied : Db × Document.Result AppliedChange → Db × Result AppliedChange
applied (db, Document.done a) = (db, ok a)
applied (db, Document.not_found) = (db, document_not_found)
applied (db, Document.stale s) = (db, stale_version s)
applied (db, Document.no_change) = (db, document_not_found)

abbrev pub change_of : ℕ → ℕ → ℕ → Edit → Change
change_of query_id user_id version edit = record {
  user_id = some user_id;
  base_version = version;
  operation = steps (replace_step edit.step_from edit.step_to edit.slice ∷ []) (some query_id);
  content = some edit.result;
  title = none;
}

-- `apply_query` on a document that is there, at `version`.
pub apply_edit : Db → ℕ → AiQuery → ℕ → ℕ → Option Edit → ℕ → ℕ → Db × Result AppliedChange
apply_edit db query_id query user_id version none change_id now = (db, selection_invalid)
apply_edit db query_id query user_id version (some edit) change_id now = applied (
    apply_change db query.workspace_id query.document_id (change_of query_id user_id version edit)
      change_id now)

pub apply_to :
    Db → ℕ → AiQuery → ℕ → ℕ → Option ℕ → Option ℕ → Document → ℕ → ℕ → Db × Result AppliedChange
unfolding apply_edit edit_for check_bounds
apply_to db query_id query user_id version start stop d change_id now =
    if d.version == version
    then if check_bounds d.body start stop
      then apply_edit db query_id query user_id version (edit_for query d.body start stop) change_id
          now
      else (db, selection_invalid)
    else (db, stale_version (snapshot query.document_id d))

unfoldable pub apply_query :
    Db → ℕ → AiQuery → ℕ → ℕ → Option ℕ → Option ℕ → ℕ → ℕ → Db × Result AppliedChange
unfolding apply_to
apply_query db query_id query user_id version selection_from selection_to change_id now =
    if is_completed query.status && not (is_blank_text (text_or_empty query.response))
    then elim (find_document db query.workspace_id query.document_id) [
      | none ↦ (db, document_not_found)
      | some d ↦
          apply_to db query_id query user_id version (or_stored selection_from query.selection_from)
            (or_stored selection_to query.selection_to) d change_id now
    ]
    else (db, ai_query_not_completed)
