-- ===== src/Realtime/Tickets/Tests.antt =====
-- A handshake with a ticket, and the next one.
use synapse_canvas.Base.{ℕ, ◌<◌, ◌≡◌, refl, true, [], ◌∷◌, none, some, length}
use synapse_canvas.Base.Dict.{lookup}
use synapse_canvas.ProseMirror.Utf16.{Text}
use synapse_canvas.Document.{Db, Document, create_document}
use synapse_canvas.Workspace.{Tables, editor, role_of}
use synapse_canvas.Realtime.Tickets.{
  Tickets, issue, redeem, get_document_for_user, resolve_ticket, redeem_socket,
}
use synapse_canvas.Realtime.Tickets.Once.{redeem_socket_once}

abbrev documents : Db
documents =
    (create_document (record { documents = []; changes = [] }) 5 50 900 9 (some 3) [] none).0

abbrev people : Tables
people = record {
  users = (3, record { email = 70; is_email_verified = true }) ∷ [];
  workspaces = (9, record { name = []; owner_id = 1 }) ∷ [];
  members = record { workspace_id = 9; user_id = 3; role = editor } ∷ [];
}

abbrev secret : Text
secret = b'k' ∷ b'e' ∷ b'y' ∷ []

-- The length stands for the hash.
abbrev issued : Tickets
issued = issue length [] secret (record { user_id = 3; document_id = 5 }) 1000 30

redeem_socket_once_example :
    ((expires_at : ℕ) × (lookup 3 issued
        ≡ some (some (record { user_id = 3; document_id = 5 }), expires_at))
      × (1010 < expires_at))
    × ((d : Document) × (lookup 5 documents.documents ≡ some d)
        × (d.workspace_id ≡ 9)
        × (role_of 9 3 people.members ≡ some editor))
    × ((redeem_socket length
          (redeem_socket length issued documents people 5 (some secret) 1010).0
          documents
          people
          5
          (some secret)
          1011).1
        ≡ none)
unfolding create_document issue redeem_socket redeem resolve_ticket get_document_for_user role_of
redeem_socket_once_example =
    redeem_socket_once length issued documents documents people people 5 5 secret 1010 1011 3 editor
      9 refl
