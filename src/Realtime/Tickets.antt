-- ===== src/Realtime/Tickets.antt =====
-- api/services/ws_tickets.py, `get_document_for_user` of api/services/documents.py and `_redeem` of
-- api/routers/realtime.py: the ticket that opens a socket. `hash_url_token` is a parameter; a value
-- in Redis that is no ticket is `none`; Redis drops a key at its expiry.
pub mod Once
mod Tests
use synapse_canvas.Base.{
  ℕ, ◌+◌, List, [], ◌∷◌, Bool, true, false, Option, none, some, ltb, ◌==◌, if◌then◌else◌, is_some,
}
use synapse_canvas.Base.Dict.{Dict, lookup, insert, erase}
use synapse_canvas.ProseMirror.Utf16.{Text}
use synapse_canvas.Document.{Document}
use synapse_canvas.Document
use synapse_canvas.Workspace.{Role, Member, Tables, role_of}

pub record Ticket : Type 0 where
  pub user_id : ℕ
  pub document_id : ℕ

abbrev pub Tickets : Type 0
Tickets = Dict (Option Ticket × ℕ)

unfoldable pub issue : (Text → ℕ) → Tickets → Text → Ticket → ℕ → ℕ → Tickets
issue hash_url_token tickets raw_token ticket now ttl =
    insert (hash_url_token raw_token) (some ticket, now + ttl) tickets

-- What GETDEL gives: nothing once the key has expired.
abbrev pub unexpired : ℕ → Option Ticket × ℕ → Option Ticket
unexpired now (value, expires_at) = if ltb now expires_at then value else none

unfoldable pub redeem : (Text → ℕ) → Tickets → Text → ℕ → Tickets × Option Ticket
redeem hash_url_token tickets [] now = (tickets, none)
redeem hash_url_token tickets (c ∷ raw_token) now =
    elim (lookup (hash_url_token (c ∷ raw_token)) tickets) [
      | none ↦ (tickets, none)
      | some value ↦ (erase (hash_url_token (c ∷ raw_token)) tickets, unexpired now value)
    ]

abbrev pub with_role : Document → Option Role → Option (Document × Role)
with_role d none = none
with_role d (some role) = some (d, role)

-- By id alone; a document in someone else's workspace is as one that does not exist.
unfoldable pub get_document_for_user : Document.Db → List Member → ℕ → ℕ → Option (Document × Role)
get_document_for_user db members document_id user_id = elim (lookup document_id db.documents) [
  | none ↦ none
  | some d ↦ with_role d (role_of d.workspace_id user_id members)
]

-- What a socket is opened with: the user, the role and the workspace.
abbrev pub opened_with : ℕ → Option (Document × Role) → Option (ℕ × Role × ℕ)
opened_with user_id none = none
opened_with user_id (some (d, role)) = some (user_id, role, d.workspace_id)

-- `_redeem` on the ticket that Redis had.
unfoldable pub resolve_ticket : Document.Db → Tables → ℕ → Option Ticket → Option (ℕ × Role × ℕ)
unfolding get_document_for_user
resolve_ticket db tables document_id none = none
resolve_ticket db tables document_id (some ticket) =
    if ticket.document_id == document_id
    then if is_some (lookup ticket.user_id tables.users)
      then opened_with ticket.user_id
          (get_document_for_user db tables.members document_id ticket.user_id)
      else none
    else none

unfoldable pub redeem_socket :
    (Text → ℕ)
    → Tickets
    → Document.Db
    → Tables
    → ℕ
    → Option Text
    → ℕ
    → Tickets × Option (ℕ × Role × ℕ)
unfolding redeem resolve_ticket
redeem_socket hash_url_token tickets db tables document_id none now = (tickets, none)
redeem_socket hash_url_token tickets db tables document_id (some raw_token) now =
    let (left, ticket) = redeem hash_url_token tickets raw_token now in
    (left, resolve_ticket db tables document_id ticket)
