-- ===== src/Realtime/Session.antt =====
-- api/realtime/session.py: the loop of one socket. `receive` and the clocks are the frames, each
-- with its time; a JSON text that pydantic refuses is one without a message. The document's tables,
-- the presence hash and the hub are the state; what is sent and published is written down in order.
pub mod Release
pub mod Edits
mod Tests
use synapse_canvas.Base.{
  ℕ, ◌+◌, ◌-◌, List, [], ◌∷◌, ◌++◌, Bool, true, false, not, Option, none, some, leb, ltb, ◌==◌,
  if◌then◌else◌, opt_eq, map, keep,
}
use synapse_canvas.ProseMirror.Utf16.{Text}
use synapse_canvas.ProseMirror.Node.{Node}
use synapse_canvas.Document.{
  Db, Document, DocumentSnapshot, Step, Operation, steps, Change, AppliedChange, find_document,
  apply_change,
}
use synapse_canvas.Document
use synapse_canvas.Workspace.{Role, editor, satisfies}
use synapse_canvas.Realtime.Presence.{Peer, Hash, touch, sweep, peers}
use synapse_canvas.Realtime.Presence
use synapse_canvas.Realtime.Hub.{Connections, join}
use synapse_canvas.Realtime.Hub

-- `SCHEMA_VERSION` of services/prosemirror.py.
abbrev pub schema_version : ℕ
schema_version = 2

-- What the constructor and the settings fix.
pub record EditorSession : Type 0 where
  pub document_id : ℕ
  pub workspace_id : ℕ
  pub user_id : ℕ
  pub role : Role
  pub client_schema : Option ℕ
  pub connection_id : ℕ
  pub presence_ttl : ℕ
  pub edit_rate_limit : ℕ
  pub edit_rate_window : ℕ
  pub max_message_bytes : ℕ

-- `_EditBudget`
pub record EditBudget : Type 0 where
  pub window_start : ℕ
  pub count : ℕ

-- The limit and the window are the session's.
unfoldable pub take : EditBudget → ℕ → ℕ → ℕ → EditBudget × Bool
take budget limit window now =
    if limit == 0
    then (budget, true)
    else let fresh = leb window (now - budget.window_start) in
      let started = if fresh then now else budget.window_start in
      let count = (if fresh then 0 else budget.count) + 1 in
      (record { window_start = started; count = count }, leb count limit)

pub data ErrorCode : Type 0 where
  request_invalid role_too_low : ErrorCode

pub data CloseCode : Type 0 where
  idle not_found schema_mismatch_close too_many_edits too_large unsupported_frame : CloseCode

pub data Message : Type 0 where
  schema_mismatch : ℕ → Message
  init : DocumentSnapshot → List Peer → Message
  pong : Message
  error : ErrorCode → Message
  rejected : DocumentSnapshot → Message
  edit_ack : ℕ → Message

pub data Broadcast : Type 0 where
  presence : Peer → Broadcast
  peer_left : ℕ → Broadcast
  edit : ℕ → Operation → ℕ → Broadcast

-- An inbound message.
pub data ClientMessage : Type 0 where
  edit_message : ℕ → List Step → Node → ClientMessage
  cursor_message : ℕ → ℕ → ClientMessage
  ping_message : ClientMessage

-- What `receive` gives: silence past the timeout, the end, an exception, bytes, or a text with its
-- size in UTF-8 and what pydantic makes of it. The ids of a change are the database's.
pub data Frame : Type 0 where
  silence disconnect failure binary : Frame
  text_frame : ℕ → Option ClientMessage → ℕ → ℕ → Frame

pub record State : Type 0 where
  pub db : Db
  pub hash : Hash
  pub hub : Connections
  pub sent : List Message
  pub closed : Option CloseCode
  pub published : List (Broadcast × Option ℕ)
  pub budget : EditBudget
  pub peer : Peer
  pub joined : Bool

-- Nothing is sent on a socket that is not CONNECTED.
abbrev pub send : State → Message → State
send s message = elim s.closed [
  | none ↦ record s { sent = s.sent ++ (message ∷ []) }
  | some code ↦ s
]

abbrev pub close : State → CloseCode → State
close s code = elim s.closed [ none ↦ record s { closed = some code } | some earlier ↦ s ]

abbrev pub publish : State → Broadcast → Option ℕ → State
publish s broadcast origin = record s { published = s.published ++ ((broadcast, origin) ∷ []) }

unfoldable pub schema_matches : EditorSession → State → State × Bool
schema_matches c s =
    if opt_eq c.client_schema (some schema_version)
    then (s, true)
    else (close (send s (schema_mismatch schema_version)) schema_mismatch_close, false)

unfoldable pub send_init : EditorSession → State → ℕ → State × Bool
unfolding find_document peers
send_init c s now = elim (find_document s.db c.workspace_id c.document_id) [
  | none ↦ (close s not_found, false)
  | some d ↦ (
    send s (
        init (record { id = c.document_id; row = d })
          (keep (λ p. not (p.user_id == c.user_id)) (peers s.hash now))),
    true,
  )
]

unfoldable pub touch_presence : EditorSession → State → ℕ → State
unfolding touch
touch_presence c s now =
    publish (record s { hash = touch s.hash s.peer now c.presence_ttl }) (presence s.peer)
      (some c.connection_id)

abbrev pub announce_left : State → List ℕ → State
announce_left s [] = s
announce_left s (user ∷ users) = announce_left (publish s (peer_left user) none) users

unfoldable pub expire_stale_peers : State → ℕ → State
unfolding sweep
expire_stale_peers s now =
    let (hash, users) = sweep s.hash now in announce_left (record s { hash = hash }) users

unfoldable pub handle_ping : EditorSession → State → ℕ → State
unfolding touch_presence expire_stale_peers
handle_ping c s now = send (expire_stale_peers (touch_presence c s now) now) pong

unfoldable pub handle_cursor : EditorSession → State → ℕ → ℕ → ℕ → State
unfolding touch_presence
handle_cursor c s anchor head now =
    touch_presence c
      (record s {
        peer = record s.peer {
          anchor = some anchor;
          head = some head;
          connection_id = c.connection_id;
        };
      })
      now

abbrev pub change_of : EditorSession → ℕ → List Step → Node → Change
change_of c base_version client_steps doc = record {
  user_id = some c.user_id;
  base_version = base_version;
  operation = steps client_steps none;
  content = some doc;
  title = none;
}

-- What follows `apply_change` in `_handle_edit`.
unfoldable pub after_change :
    EditorSession → State → Operation → Db × Document.Result AppliedChange → State × Bool
after_change c s operation (db, Document.done a) =
    let version = a.document.row.version in
    (
      publish (send (record s { db = db }) (edit_ack version)) (edit version operation c.user_id)
          (some c.connection_id),
      true,
    )
after_change c s operation (db, Document.stale current) =
    (send (record s { db = db }) (rejected current), true)
after_change c s operation (db, Document.not_found) =
    (close (record s { db = db }) not_found, false)
after_change c s operation (db, Document.no_change) =
    (close (record s { db = db }) not_found, false)

-- `_handle_edit` past the role and the budget.
unfoldable pub write_edit : EditorSession → State → ℕ → List Step → Node → ℕ → ℕ → State × Bool
unfolding after_change
write_edit c s base_version client_steps doc change_id now =
    after_change c s (steps client_steps none) (
      apply_change s.db c.workspace_id c.document_id (change_of c base_version client_steps doc)
        change_id now)

-- `_handle_edit` past the role.
unfoldable pub spend_edit : EditorSession → State → ℕ → List Step → Node → ℕ → ℕ → State × Bool
unfolding write_edit take
spend_edit c s base_version client_steps doc change_id now =
    let (budget, allowed) = take s.budget c.edit_rate_limit c.edit_rate_window now in
    let counted = record s { budget = budget } in
    if allowed
    then write_edit c counted base_version client_steps doc change_id now
    else (close counted too_many_edits, false)

unfoldable pub handle_edit : EditorSession → State → ℕ → List Step → Node → ℕ → ℕ → State × Bool
unfolding spend_edit
handle_edit c s base_version client_steps doc change_id now =
    if satisfies c.role editor
    then spend_edit c s base_version client_steps doc change_id now
    else (send s (error role_too_low), true)

unfoldable pub dispatch : EditorSession → State → Option ClientMessage → ℕ → ℕ → State × Bool
unfolding handle_ping handle_cursor handle_edit
dispatch c s none change_id now = (send s (error request_invalid), true)
dispatch c s (some ping_message) change_id now = (handle_ping c s now, true)
dispatch c s (some (cursor_message anchor head)) change_id now =
    (handle_cursor c s anchor head now, true)
dispatch c s (some (edit_message base_version client_steps doc)) change_id now =
    handle_edit c s base_version client_steps doc change_id now

-- One round of `_receive_loop`; false ends the loop.
unfoldable pub receive : EditorSession → State → Frame → State × Bool
unfolding dispatch
receive c s silence = (close s idle, false)
receive c s disconnect = (s, false)
receive c s failure = (s, false)
receive c s binary = (close s unsupported_frame, false)
receive c s (text_frame size message change_id now) =
    if ltb c.max_message_bytes size
    then (close s too_large, false)
    else dispatch c s message change_id now

-- What others do to the tables, the hash and the hub between two frames.
pub record Outside : Type 0 where
  pub on_db : Db → Db
  pub on_hash : Hash → Hash
  pub on_hub : Connections → Connections

abbrev pub others : Outside → State → State
others outside s = record s {
  db = outside.on_db s.db;
  hash = outside.on_hash s.hash;
  hub = outside.on_hub s.hub;
}

unfoldable pub receive_loop : EditorSession → State → List (Frame × Outside) → State
unfolding receive
receive_loop c s [] = s
receive_loop c s ((frame, outside) ∷ frames) =
    let (s', more) = receive c (others outside s) frame in
    let rest = receive_loop c s' frames in if more then rest else s'

unfoldable pub cleanup : EditorSession → State → State
cleanup c s =
    let hub = if s.joined then Hub.leave s.hub c.document_id c.connection_id else s.hub in
    let (hash, departed) = Presence.leave s.hash c.user_id c.connection_id in
    let left = record s { hub = hub; hash = hash } in
    if departed then publish left (peer_left c.user_id) none else left

-- `hub.join` registers the connection, then waits for the subscription.
abbrev pub registered : EditorSession → State → State
registered c s = record s { hub = join s.hub c.document_id c.connection_id }

-- The mark that `run` makes once `hub.join` has returned.
abbrev pub joined_to : EditorSession → State → State
joined_to c s = record (registered c s) { joined = true }

-- The body of the `try` in `run`; `interrupted` tells that the task is cancelled in the wait of
-- `hub.join`.
unfoldable pub serve : EditorSession → State → ℕ → Bool → List (Frame × Outside) → State
unfolding schema_matches send_init touch_presence receive_loop
serve c s now interrupted frames =
    let (checked, same_schema) = schema_matches c s in
    let (opened, found) = send_init c checked now in
    let served = receive_loop c (touch_presence c (joined_to c opened) now) frames in
    let entered = if interrupted then registered c opened else served in
    if same_schema then if found then entered else opened else checked

unfoldable pub run : EditorSession → State → ℕ → Bool → List (Frame × Outside) → State
unfolding serve cleanup
run c s now interrupted frames = cleanup c (serve c s now interrupted frames)
