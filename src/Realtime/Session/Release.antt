-- ===== src/Realtime/Session/Release.antt =====
-- `run` of api/realtime/session.py: what it takes and what it releases.
use synapse_canvas.Base.{ℕ, ◌≡◌, refl, ◌∙◌, List, [], ◌∷◌, arith, true, false, none, some, opt_eq}
use synapse_canvas.Document
use synapse_canvas.ProseMirror.Node.{Node}
use synapse_canvas.Workspace.{editor, satisfies}
use synapse_canvas.Realtime.Presence
use synapse_canvas.Realtime.Hub.{join, is_member, is_member-join, local_connections}
use synapse_canvas.Realtime.Session
use synapse_canvas.Realtime.Session.{
  EditorSession, State, Frame, silence, disconnect, failure, binary, text_frame, Outside, Message,
  schema_mismatch, schema_mismatch_close, schema_version, error, role_too_low, schema_matches,
  send_init, touch_presence, expire_stale_peers, announce_left, handle_ping, handle_cursor,
  handle_edit, dispatch, receive, serve, cleanup, run, send, close, publish, ClientMessage,
  ping_message, cursor_message, edit_message,
}

-- What a handler that writes no document leaves alone.
abbrev pub Same : State → State → Type 0
Same s s' = (s'.joined ≡ s.joined) × (s'.db ≡ s.db) × (s'.hub ≡ s.hub)

pub send-Same : (s : State) (m : Message) → Same s (send s m)
send-Same s m = ground arith

pub close-Same : (s : State) (code : _) → Same s (close s code)
close-Same s code = ground arith

announce_left-Same : (s : State) (users : List ℕ) → Same s (announce_left s users)
announce_left-Same s [] = (refl, refl, refl)
announce_left-Same s (user ∷ users) =
    ground (arith, announce_left-Same (publish s (Session.peer_left user) none) users)

pub handle_ping-Same : (c : EditorSession) (s : State) (now : ℕ) → Same s (handle_ping c s now)
unfolding handle_ping touch_presence expire_stale_peers
handle_ping-Same c s now =
    let touched = touch_presence c s now in
    let (hash, users) = Presence.sweep touched.hash now in
    let swept = record touched { hash = hash } in
    let (a, b, d) = announce_left-Same swept users in
    let (x, y, z) = send-Same (announce_left swept users) Session.pong in (x ∙ a, y ∙ b, z ∙ d)

-- A viewer's frames write no document.
pub receive-viewer :
    (c : EditorSession) (s : State) (frame : Frame)
    → satisfies c.role editor ≡ false
    → Same s (receive c s frame).0
unfolding receive dispatch handle_edit handle_cursor touch_presence
receive-viewer c s silence h = close-Same s Session.idle
receive-viewer c s disconnect h = (refl, refl, refl)
receive-viewer c s failure h = (refl, refl, refl)
receive-viewer c s binary h = close-Same s Session.unsupported_frame
receive-viewer c s (text_frame size none change_id now) h =
    ground (arith, close-Same s Session.too_large, send-Same s (error Session.request_invalid))
receive-viewer c s (text_frame size (some ping_message) change_id now) h =
    ground (arith, close-Same s Session.too_large, handle_ping-Same c s now)
receive-viewer c s (text_frame size (some (cursor_message anchor head)) change_id now) h =
    ground (arith, close-Same s Session.too_large)
receive-viewer c s (text_frame size (some (edit_message base steps doc)) change_id now) h =
    ground (arith, close-Same s Session.too_large, send-Same s (error role_too_low))

cleanup-out : (c : EditorSession) (s : State) → s.joined ≡ false → (cleanup c s).hub ≡ s.hub
unfolding cleanup
cleanup-out c s h = ground arith

-- A session that is let in and whose task is cancelled while `hub.join` waits leaves its connection
-- in the hub: it is registered, and not yet marked as joined when `_cleanup` runs.
pub run_interrupted-leaks :
    (c : EditorSession) (s : State) (now : ℕ) (frames : List (Frame × Outside))
    (d : Document.Document)
    → s.joined ≡ false
    → opt_eq c.client_schema (some schema_version) ≡ true
    → Document.find_document s.db c.workspace_id c.document_id ≡ some d
    → is_member c.connection_id (local_connections (run c s now true frames).hub c.document_id)
      ≡ true
unfolding run serve schema_matches send_init
run_interrupted-leaks c s now frames d out match there =
    let served = serve c s now true frames in
    let marked : served.joined ≡ false = ground arith in
    let hub : served.hub ≡ join s.hub c.document_id c.connection_id = ground arith in
    rw (cleanup-out c served marked) (rw hub (is_member-join s.hub c.document_id c.connection_id))
