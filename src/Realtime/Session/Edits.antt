-- ===== src/Realtime/Session/Edits.antt =====
-- What a socket of api/realtime/session.py may write, and what its acknowledgement promises.
use synapse_canvas.Base.{
  Bool, ℕ, ◌+◌, ◌≡◌, refl, sym, ap, ◌∙◌, List, [], ◌∷◌, ◌++◌, arith, true, false, none, some,
  opt_eq, Bool-cases, Option-cases, ◌⊎◌, inl, inr, All, subst,
}
use synapse_canvas.Base.Dict.{lookup}
use synapse_canvas.Document.{Db, Document, Step, steps, AppliedChange, apply_change}
use synapse_canvas.Document
use synapse_canvas.Document.Head.{Outcome, apply_change-Outcome}
use synapse_canvas.ProseMirror.Node.{Node}
use synapse_canvas.Workspace.{editor, satisfies}
use synapse_canvas.Realtime.Session.{
  EditorSession, State, Frame, Outside, others, edit_ack, edit, schema_version, schema_matches,
  send_init, touch_presence, take, change_of, after_change, write_edit, spend_edit, handle_edit,
  receive, receive_loop, serve, cleanup, run, joined_to,
}
use synapse_canvas.Realtime.Session.Release.{receive-viewer}

-- An edit that changes nothing and tells nobody, or one that is stored, acknowledged and relayed.
abbrev pub Answers : EditorSession → State → ℕ → List Step → Node → State → Type 0
Answers c s base client_steps doc s' =
    ((s'.db ≡ s.db) × (s'.published ≡ s.published))
    ⊎ ((row : Document) × (lookup c.document_id s'.db.documents ≡ some row)
        × (row.version ≡ base + 1)
        × (row.body ≡ doc)
        × (row.workspace_id ≡ c.workspace_id)
        × (s'.sent ≡ s.sent ++ (edit_ack (base + 1) ∷ []))
        × (s'.published
            ≡ s.published
              ++ ((edit (base + 1) (steps client_steps none) c.user_id, some c.connection_id)
                  ∷ [])))

after_change-Answers :
    (c : EditorSession) (s : State) (base : ℕ) (client_steps : List Step) (doc : Node)
    (out : Db × Document.Result AppliedChange)
    → s.closed ≡ none
    → Outcome s.db c.workspace_id c.document_id (change_of c base client_steps doc) out
    → Answers c s base client_steps doc (after_change c s (steps client_steps none) out).0
unfolding after_change
after_change-Answers c s base client_steps doc (db, Document.done a) unclosed
      (d, at, same, next, body, title, place, place', rows) =
    inr (
      a.document.row,
      rw unclosed (rows c.document_id ∙ (ground arith)),
      next,
      body,
      place',
      rw unclosed (ap (λ v. s.sent ++ (edit_ack v ∷ [])) next),
      rw unclosed (
          ap
            (λ v.
              s.published
              ++ ((edit v (steps client_steps none) c.user_id, some c.connection_id) ∷ []))
            next),
    )
after_change-Answers c s base client_steps doc (db, Document.stale current) unclosed
      (same, own, at, differs) =
    inl (rw unclosed same, rw unclosed refl)
after_change-Answers c s base client_steps doc (db, Document.not_found) unclosed same =
    inl (rw unclosed same, rw unclosed refl)
after_change-Answers c s base client_steps doc (db, Document.no_change) unclosed o = elim o [ ]

spent :
    (c : EditorSession) (s : State) (base : ℕ) (client_steps : List Step) (doc : Node)
    (change_id now : ℕ)
    → s.closed ≡ none
    → Answers c s base client_steps doc (spend_edit c s base client_steps doc change_id now).0
unfolding spend_edit write_edit
spent c s base client_steps doc change_id now unclosed =
    let taken = take s.budget c.edit_rate_limit c.edit_rate_window now in
    let counted = record s { budget = taken.0 } in
    elim (Bool-cases (taken.1)) [
      | inr over ↦
          inl (rw (over, spend_edit) (rw unclosed refl), rw (over, spend_edit) (rw unclosed refl))
      | inl allowed ↦
          rw (allowed, spend_edit)
            (after_change-Answers c counted base client_steps doc
              (apply_change s.db c.workspace_id c.document_id (change_of c base client_steps doc)
                change_id now)
              unclosed
              (apply_change-Outcome s.db c.workspace_id c.document_id
                (change_of c base client_steps doc) change_id now))
    ]

-- An edit message on an open socket either changes no table and is published to nobody, or its
-- sender is at least an editor, the document it carries is stored at the next version after its
-- base version, and that version is acknowledged to the sender and published to the others.
pub handle_edit-Answers :
    (c : EditorSession) (s : State) (base : ℕ) (client_steps : List Step) (doc : Node)
    (change_id now : ℕ)
    → s.closed ≡ none
    → let s' = (handle_edit c s base client_steps doc change_id now).0 in
      Answers c s base client_steps doc s'
      × ((satisfies c.role editor ≡ true) ⊎ ((s'.db ≡ s.db) × (s'.published ≡ s.published)))
unfolding handle_edit spend_edit write_edit
handle_edit-Answers c s base client_steps doc change_id now unclosed =
    elim (Bool-cases (satisfies c.role editor)) [
      | inr low ↦
          let quiet : ((handle_edit c s base client_steps doc change_id now).0.db ≡ s.db)
              × ((handle_edit c s base client_steps doc change_id now).0.published ≡ s.published) =
            (rw (low, handle_edit) (rw unclosed refl), rw (low, handle_edit) (rw unclosed refl)) in
          (inl quiet, inr quiet)
      | inl may ↦
          (rw (may, handle_edit) (spent c s base client_steps doc change_id now unclosed), inl may)
    ]

-- A predicate on the tables that others keep between the frames.
abbrev pub KeptBy : (Db → Type 0) → List (Frame × Outside) → Type 0
KeptBy P frames = All (λ f. (db : Db) → P db → P (f.1.on_db db)) frames

-- The same, kept by each frame that this session handles.
abbrev pub KeptIn : EditorSession → (Db → Type 0) → Type 0
KeptIn c P = (s : State) (frame : Frame) → P s.db → P (receive c s frame).0.db

receive_loop-kept :
    (c : EditorSession) (P : Db → Type 0) (s : State) (frames : List (Frame × Outside))
    → KeptIn c P
    → KeptBy P frames
    → P s.db
    → P (receive_loop c s frames).db
unfolding receive_loop
receive_loop-kept c P s [] own outside h = h
receive_loop-kept c P s ((frame, out) ∷ frames) own (kept, outside) h =
    let (s', more) = receive c (others out s) frame in
    let one = own (others out s) frame (kept s.db h) in
    elim (Bool-cases (receive c (others out s) frame).1) [
      | inl on ↦ rw (on, receive_loop) (receive_loop-kept c P s' frames own outside one)
      | inr over ↦ rw (over, receive_loop) one
    ]

cleanup-db : (c : EditorSession) (s : State) → (cleanup c s).db ≡ s.db
unfolding cleanup
cleanup-db c s = ground arith

serve-kept :
    (c : EditorSession) (P : Db → Type 0) (s : State) (now : ℕ) (interrupted : Bool)
    (frames : List (Frame × Outside))
    → KeptIn c P
    → KeptBy P frames
    → P s.db
    → P (serve c s now interrupted frames).db
unfolding serve schema_matches send_init touch_presence
serve-kept c P s now interrupted frames own outside h =
    let (checked, same_schema) = schema_matches c s in
    let (opened, found) = send_init c checked now in
    elim (Bool-cases (opt_eq c.client_schema (some schema_version))) [
      | inr mismatch ↦
          let same : (serve c s now interrupted frames).db ≡ s.db = ground arith in
          subst P (sym same) h
      | inl match ↦ elim (Option-cases (Document.find_document s.db c.workspace_id c.document_id)) [
        | inl missing ↦
            let same : (serve c s now interrupted frames).db ≡ s.db = ground arith in
            subst P (sym same) h
        | inr (d, there) ↦ elim (Bool-cases interrupted) [
          | inl cancelled ↦
              let same : (serve c s now interrupted frames).db ≡ s.db = ground arith in
              subst P (sym same) h
          | inr entered ↦
              let joined = touch_presence c (joined_to c opened) now in
              let same : joined.db ≡ s.db = ground arith in
              let run_on : (serve c s now interrupted frames).db
                  ≡ (receive_loop c joined frames).db =
                ground arith in
              subst P (sym run_on)
                (receive_loop-kept c P joined frames own outside (subst P (sym same) h))
        ]
      ]
    ]

run-kept :
    (c : EditorSession) (P : Db → Type 0) (s : State) (now : ℕ) (interrupted : Bool)
    (frames : List (Frame × Outside))
    → KeptIn c P
    → KeptBy P frames
    → P s.db
    → P (run c s now interrupted frames).db
unfolding run
run-kept c P s now interrupted frames own outside h =
    subst P (sym (cleanup-db c (serve c s now interrupted frames)))
      (serve-kept c P s now interrupted frames own outside h)

-- A viewer's session writes no document: whatever it sends, what holds of the tables before it
-- and is kept by what others do between its frames holds after it.
pub run-viewer :
    (c : EditorSession) (P : Db → Type 0) (s : State) (now : ℕ) (interrupted : Bool)
    (frames : List (Frame × Outside))
    → satisfies c.role editor ≡ false
    → KeptBy P frames
    → P s.db
    → P (run c s now interrupted frames).db
run-viewer c P s now interrupted frames low outside h =
    run-kept c P s now interrupted frames
      (λ t frame k. subst P (sym (receive-viewer c t frame low).1) k) outside h
