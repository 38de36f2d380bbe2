-- ===== src/Document/Tests.antt =====
-- The write path on a small database: one document, two clients.
use synapse_canvas.Base.{ℕ, ◌<◌, ◌≡◌, refl, [], ◌∷◌, none, some}
use synapse_canvas.ProseMirror.Utf16.{Text}
use synapse_canvas.Document.{
  Db, DocumentSnapshot, steps, stale, create_document, apply_change, update_document,
  empty_document,
}
use synapse_canvas.Document.Log.{IsValid, begins, continues, creates, updates, Reach-IsValid}
use synapse_canvas.Document.Head.{Request, apply, run, one_edit_per_version}

abbrev nothing : Db
nothing = record { documents = []; changes = [] }

nothing-IsValid : IsValid nothing
nothing-IsValid id = refl

abbrev name : Text
name = b'N' ∷ []

abbrev created : Db
created = (create_document nothing 5 50 100 9 (some 1) name none).0

abbrev rename : Db
rename = (update_document created 9 5 1 (some 1) (some (b'M' ∷ [])) none 51 101).0

Reach-IsValid_example : IsValid rename
unfolding create_document
Reach-IsValid_example = Reach-IsValid nothing-IsValid (
    continues (continues begins (creates nothing 5 50 100 9 (some 1) name none refl))
      (updates created 9 5 1 (some 1) (some (b'M' ∷ [])) none 51 101))

abbrev edit_by : ℕ → ℕ → Request
edit_by user change_id = record {
  workspace_id = 9;
  id = 5;
  change = record {
    user_id = some user;
    base_version = 1;
    operation = steps [] none;
    content = some empty_document;
    title = none;
  };
  change_id = change_id;
  now = 102;
}

abbrev after_first : Db
after_first = (apply created (edit_by 1 51)).0

one_edit_per_version_example :
    (s : DocumentSnapshot) × (apply (run after_first []) (edit_by 2 52)
      ≡ (run after_first [], stale s))
    × (1 < s.row.version)
unfolding create_document apply_change
one_edit_per_version_example =
    one_edit_per_version created (edit_by 1 51) (edit_by 2 52) [] _ refl refl refl refl
