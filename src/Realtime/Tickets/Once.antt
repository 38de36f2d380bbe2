-- ===== src/Realtime/Tickets/Once.antt =====
-- How often a ticket of api/services/ws_tickets.py opens a socket.
use synapse_canvas.Base.{
  ℕ, ◌<◌, ◌≡◌, refl, sym, ap, ◌∙◌, inl, inr, [], ◌∷◌, arith, Option, none, some, Option-cases,
}
use synapse_canvas.Base.Dict.{lookup, lookup-erase}
use synapse_canvas.ProseMirror.Utf16.{Text}
use synapse_canvas.Document.{Document}
use synapse_canvas.Document
use synapse_canvas.Workspace.{Role, Tables, role_of}
use synapse_canvas.Realtime.Tickets.{
  Ticket, Tickets, unexpired, redeem, get_document_for_user, resolve_ticket, redeem_socket,
}

unexpired-some :
    (now : ℕ) (value : Option Ticket) (expires_at : ℕ) (ticket : Ticket)
    → unexpired now (value, expires_at) ≡ some ticket
    → (value ≡ some ticket) × (now < expires_at)
unexpired-some now value expires_at ticket h = ground arith

-- A redeemed ticket was stored and had not expired; its key is gone.
redeem-some :
    (hash : Text → ℕ) (tickets : Tickets) (raw : Text) (now : ℕ) (ticket : Ticket)
    → (redeem hash tickets raw now).1 ≡ some ticket
    → ((expires_at : ℕ) × (lookup (hash raw) tickets ≡ some (some ticket, expires_at))
        × (now < expires_at))
      × (lookup (hash raw) (redeem hash tickets raw now).0 ≡ none)
unfolding redeem
redeem-some hash tickets [] now ticket h = cc
redeem-some hash tickets (c ∷ raw) now ticket h =
    elim (Option-cases (lookup (hash (c ∷ raw)) tickets)) [
      | inl gone ↦
          let none_there : (redeem hash tickets (c ∷ raw) now).1 ≡ none = rw (gone, redeem) refl in
          cc
      | inr ((value, expires_at), at) ↦
          let given : (redeem hash tickets (c ∷ raw) now).1 ≡ unexpired now (value, expires_at) =
            rw (at, redeem) refl in
          let live : unexpired now (value, expires_at) ≡ some ticket = sym given ∙ h in
          let (same, later) = unexpired-some now value expires_at ticket live in
          (
            (expires_at, at ∙ ap (λ v. some (v, expires_at)) same, later),
            rw (at, redeem)
                (ground (arith, lookup-erase (hash (c ∷ raw)) (hash (c ∷ raw)) tickets)),
          )
    ]

resolve_ticket-some :
    (db : Document.Db) (tables : Tables) (document_id : ℕ) (ticket : Option Ticket) (user : ℕ)
    (role : Role) (workspace : ℕ)
    → resolve_ticket db tables document_id ticket ≡ some (user, role, workspace)
    → (ticket ≡ some (record { user_id = user; document_id = document_id }))
      × ((d : Document) × (lookup document_id db.documents ≡ some d)
          × (d.workspace_id ≡ workspace)
          × (role_of workspace user tables.members ≡ some role))
unfolding resolve_ticket get_document_for_user
resolve_ticket-some db tables document_id none user role workspace h = cc
resolve_ticket-some db tables document_id (some ticket) user role workspace h = ground arith

redeem-gone :
    (hash : Text → ℕ) (tickets : Tickets) (raw : Text) (now : ℕ)
    → lookup (hash raw) tickets ≡ none
    → redeem hash tickets raw now ≡ (tickets, none)
unfolding redeem
redeem-gone hash tickets [] now gone = refl
redeem-gone hash tickets (c ∷ raw) now gone = rw (gone, redeem) refl

-- A ticket opens one socket: where a handshake is let in, its ticket was stored for that user and
-- document and had not expired, and the user is now a member, with the role that is given, of the
-- document's workspace; and the next handshake with the same ticket, for any document, is refused.
pub redeem_socket_once :
    (hash : Text → ℕ) (tickets : Tickets) (db db' : Document.Db) (tables tables' : Tables)
    (document_id document_id' : ℕ) (raw : Text) (now now' user : ℕ) (role : Role) (workspace : ℕ)
    → let out = redeem_socket hash tickets db tables document_id (some raw) now in
      out.1 ≡ some (user, role, workspace)
      → ((expires_at : ℕ) × (lookup (hash raw) tickets
            ≡ some (some (record { user_id = user; document_id = document_id }), expires_at))
          × (now < expires_at))
        × ((d : Document) × (lookup document_id db.documents ≡ some d)
            × (d.workspace_id ≡ workspace)
            × (role_of workspace user tables.members ≡ some role))
        × ((redeem_socket hash out.0 db' tables' document_id' (some raw) now').1 ≡ none)
unfolding redeem_socket resolve_ticket
redeem_socket_once hash tickets db db' tables tables' document_id document_id' raw now now' user
      role workspace done =
    let given = (redeem hash tickets raw now).1 in
    let (same, member) = resolve_ticket-some db tables document_id given user role workspace done in
    let (stored, gone) =
      redeem-some hash tickets raw now (record { user_id = user; document_id = document_id })
        same in
    (
      stored,
      member,
      ap (λ o. resolve_ticket db' tables' document_id' o.1)
          (redeem-gone hash (redeem hash tickets raw now).0 raw now' gone),
    )
