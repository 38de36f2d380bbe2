-- ===== src/Realtime/Session/Tests.antt =====
-- A session of one editor on one document, and one of a viewer.
use synapse_canvas.Base.{◌≡◌, ◌⊎◌, refl, [], ◌∷◌, true, false, none, some, List}
use synapse_canvas.Document.{Db, create_document, find_document, empty_document, client_step}
use synapse_canvas.Workspace.{Role, editor, viewer, satisfies, rank}
use synapse_canvas.Realtime.Presence.{Peer}
use synapse_canvas.Realtime.Hub.{is_member, local_connections}
use synapse_canvas.Realtime.Session.{
  EditorSession, State, Frame, disconnect, text_frame, Outside, edit_message, handle_edit, run,
}
use synapse_canvas.Realtime.Session.Release.{run_interrupted-leaks}
use synapse_canvas.Realtime.Session.Edits.{Answers, handle_edit-Answers, run-viewer}

abbrev tables : Db
tables = (create_document (record { documents = []; changes = [] }) 5 50 900 9 (some 3) [] none).0

abbrev session_of : Role → EditorSession
session_of role = record {
  document_id = 5;
  workspace_id = 9;
  user_id = 3;
  role = role;
  client_schema = some 2;
  connection_id = 77;
  presence_ttl = 30;
  edit_rate_limit = 10;
  edit_rate_window = 1;
  max_message_bytes = 1000;
}

abbrev me : Peer
me = record { user_id = 3; name = []; color = 0; anchor = none; head = none; connection_id = 77 }

abbrev start : State
start = record {
  db = tables;
  hash = [];
  hub = [];
  sent = [];
  closed = none;
  published = [];
  budget = record { window_start = 0; count = 0 };
  peer = me;
  joined = false;
}

abbrev nobody : Outside
nobody = record { on_db = λ d. d; on_hash = λ h. h; on_hub = λ h. h }

abbrev typing : List (Frame × Outside)
typing =
    (text_frame 90 (some (edit_message 1 (client_step 0 ∷ []) empty_document)) 51 1001, nobody)
    ∷ (disconnect, nobody)
    ∷ []

handle_edit-Answers_example :
    Answers
      (session_of editor)
      start
      1
      (client_step 0 ∷ [])
      empty_document
      (handle_edit (session_of editor) start 1 (client_step 0 ∷ []) empty_document 51 1001).0
    × ((satisfies editor editor ≡ true)
        ⊎ (((handle_edit
                (session_of editor)
                start
                1
                (client_step 0 ∷ [])
                empty_document
                51
                1001).0.db
              ≡ tables)
            × ((handle_edit
                  (session_of editor)
                  start
                  1
                  (client_step 0 ∷ [])
                  empty_document
                  51
                  1001).0.published
                ≡ [])))
handle_edit-Answers_example =
    handle_edit-Answers (session_of editor) start 1 (client_step 0 ∷ []) empty_document 51 1001 refl

abbrev IsFirst : Db → Type 0
IsFirst db = db ≡ tables

run-viewer_example : IsFirst (run (session_of viewer) start 1000 false typing).db
unfolding satisfies rank
run-viewer_example =
    run-viewer (session_of viewer) IsFirst start 1000 false typing refl (λ d h. h, (λ d h. h, tt))
      refl

run_interrupted-leaks_example :
    is_member 77 (local_connections (run (session_of editor) start 1000 true []).hub 5) ≡ true
unfolding create_document find_document local_connections
run_interrupted-leaks_example =
    run_interrupted-leaks (session_of editor) start 1000 [] _ refl refl refl
