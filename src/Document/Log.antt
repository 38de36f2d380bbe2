-- ===== src/Document/Log.antt =====
-- The change log: for each document it runs from 0 to the stored version without a gap, through
-- every operation. `Document.version` is its head.
use synapse_canvas.Base.{
  ℕ, suc, ◌≡◌, refl, sym, ◌⊎◌, inl, inr, ◌≢◌, List, [], ◌∷◌, ◌++◌, arith, Bool, true, false, Option,
  none, some, ◌==◌, if◌then◌else◌, keep, Option-cases, Bool-cases, subst,
}
use synapse_canvas.Base.Dict.{lookup, insert, erase, lookup-insert, lookup-erase}
use synapse_canvas.ProseMirror.Utf16.{Text}
use synapse_canvas.ProseMirror.Node.{Node}
use synapse_canvas.Document.{
  Db, Document, DocumentChange, Change, Result, not_found, stale, AppliedChange, create_document,
  find_document, write, apply_change, update_document, delete_document,
}

abbrev pub is_for : ℕ → DocumentChange → Bool
is_for id c = c.document_id == id

-- The log of one document.
abbrev pub history : Db → ℕ → List DocumentChange
history db id = keep (is_for id) db.changes

-- Each entry starts from the version that the one before it made.
abbrev pub Chain : ℕ → List DocumentChange → ℕ → Type 0
Chain base [] head = base ≡ head
Chain base (c ∷ cs) head =
    (c.base_version ≡ base) × (c.version ≡ suc base) × Chain (suc base) cs head

abbrev pub Logged : List DocumentChange → Option Document → Type 0
Logged cs none = cs ≡ []
Logged cs (some d) = Chain 0 cs d.version

-- Every stored document's log leads from nothing to its version; no other document has a log.
abbrev pub IsValid : Db → Type 0
IsValid db = (id : ℕ) → Logged (history db id) (lookup id db.documents)

Chain-snoc :
    (base head : ℕ) (cs : List DocumentChange) (c : DocumentChange)
    → Chain base cs head
    → c.base_version ≡ head
    → c.version ≡ suc head
    → Chain base (cs ++ (c ∷ [])) (suc head)
Chain-snoc base head [] c e b v = ground arith
Chain-snoc base head (x ∷ cs) c (p, q, r) b v = (p, q, Chain-snoc (suc base) head cs c r b v)

-- A log entry lands in the history of its own document only.
history-snoc :
    (cs : List DocumentChange) (c : DocumentChange) (id : ℕ)
    → keep (is_for id) (cs ++ (c ∷ []))
      ≡ (if c.document_id == id then keep (is_for id) cs ++ (c ∷ []) else keep (is_for id) cs)
history-snoc [] c id = ground arith
history-snoc (x ∷ cs) c id = ground (arith, history-snoc cs c id)

abbrev not_for : ℕ → DocumentChange → Bool
not_for id c = if c.document_id == id then false else true

history-erased :
    (cs : List DocumentChange) (id j : ℕ)
    → keep (is_for j) (keep (not_for id) cs) ≡ (if j == id then [] else keep (is_for j) cs)
history-erased [] id j = ground arith
history-erased (x ∷ cs) id j = ground (arith, history-erased cs id j)

-- Appending one entry for `id`, at the version that its new row has.
append-IsValid :
    (db : Db) (id : ℕ) (row : Document) (c : DocumentChange) (head : ℕ)
    → IsValid db
    → Chain 0 (history db id) head
    → c.document_id ≡ id
    → c.base_version ≡ head
    → c.version ≡ suc head
    → row.version ≡ suc head
    → IsValid (record { documents = insert id row db.documents; changes = db.changes ++ (c ∷ []) })
append-IsValid db id row c head v chain own base next same j =
    let log = history-snoc db.changes c j in
    let row_at = lookup-insert j id row db.documents in
    elim (Bool-cases (j == id)) [
      | inl e ↦
          let here : (c.document_id == j) ≡ true = ground arith in
          let at : id ≡ j = ground arith in
          rw (log, row_at, e, here, same)
            (Chain-snoc 0 head (keep (is_for j) db.changes) c
              (subst (λ k. Chain 0 (history db k) head) at chain) base next)
      | inr e ↦
          let elsewhere : (c.document_id == j) ≡ false = ground arith in
          rw (log, row_at, e, elsewhere) (v j)
    ]

-- A new document, under an id that no row has, starts a log of its own.
pub create_document-IsValid :
    (db : Db) (id change_id now workspace_id : ℕ) (created_by : Option ℕ) (title : Text)
    (content : Option Node)
    → IsValid db
    → lookup id db.documents ≡ none
    → IsValid (create_document db id change_id now workspace_id created_by title content).0
unfolding create_document
create_document-IsValid db id change_id now workspace_id created_by title content v fresh =
    append-IsValid db id _ _ 0 v (rw (subst (Logged (history db id)) fresh (v id)) refl) refl refl
      refl refl

pub find_document-some :
    (db : Db) (workspace_id id : ℕ) (d : Document)
    → find_document db workspace_id id ≡ some d
    → (lookup id db.documents ≡ some d) × (d.workspace_id ≡ workspace_id)
unfolding find_document
find_document-some db workspace_id id d h = ground arith

-- The three ways in which a change ends.
abbrev pub Ends : Db → ℕ → ℕ → Change → ℕ → ℕ → Db × Result AppliedChange → Type 0
Ends db workspace_id id c change_id now out =
    ((find_document db workspace_id id ≡ none) × (out ≡ (db, not_found)))
    ⊎ ((d : Document) × (find_document db workspace_id id ≡ some d)
        × (((d.version ≢ c.base_version) × (out ≡ (db, stale (record { id = id; row = d }))))
            ⊎ ((d.version ≡ c.base_version) × (out ≡ write db id d c change_id now))))

pub apply_change-Ends :
    (db : Db) (workspace_id id : ℕ) (c : Change) (change_id now : ℕ)
    → Ends db workspace_id id c change_id now (apply_change db workspace_id id c change_id now)
unfolding apply_change
apply_change-Ends db workspace_id id c change_id now =
    elim (Option-cases (find_document db workspace_id id)) [
      | inl e ↦ inl (e, rw (e, apply_change))
      | inr (d, e) ↦ elim (Bool-cases (d.version == c.base_version)) [
        | inl s ↦ inr (d, e, inr (ground arith, rw (e, apply_change) (rw s)))
        | inr s ↦ inr (d, e, inl (ground arith, rw (e, apply_change) (rw s)))
      ]
    ]

write-IsValid :
    (db : Db) (id : ℕ) (d : Document) (c : Change) (change_id now : ℕ)
    → IsValid db
    → lookup id db.documents ≡ some d
    → d.version ≡ c.base_version
    → IsValid (write db id d c change_id now).0
unfolding write
write-IsValid db id d c change_id now v at same =
    append-IsValid db id _ _ d.version v (subst (Logged (history db id)) at (v id)) refl (sym same)
      (omega arith) (omega arith)

-- Whatever a change asks for and however it ends, the logs stay whole.
pub apply_change-IsValid :
    (db : Db) (workspace_id id : ℕ) (c : Change) (change_id now : ℕ)
    → IsValid db
    → IsValid (apply_change db workspace_id id c change_id now).0
apply_change-IsValid db workspace_id id c change_id now v =
    elim (apply_change-Ends db workspace_id id c change_id now) [
      | inl (e, out) ↦ rw out v
      | inr (d, e, inl (differs, out)) ↦ rw out v
      | inr (d, e, inr (same, out)) ↦ rw out (
          write-IsValid db id d c change_id now v (find_document-some db workspace_id id d e).0
            same)
    ]

update_document-IsValid :
    (db : Db) (workspace_id id version : ℕ) (user_id : Option ℕ) (title : Option Text)
    (content : Option Node) (change_id now : ℕ)
    → IsValid db
    → IsValid (update_document db workspace_id id version user_id title content change_id now).0
unfolding update_document
update_document-IsValid db workspace_id id version user_id none none change_id now v = v
update_document-IsValid db workspace_id id version user_id none (some n) change_id now v =
    apply_change-IsValid db workspace_id id _ change_id now v
update_document-IsValid db workspace_id id version user_id (some t) none change_id now v =
    apply_change-IsValid db workspace_id id _ change_id now v
update_document-IsValid db workspace_id id version user_id (some t) (some n) change_id now v =
    apply_change-IsValid db workspace_id id _ change_id now v

erase-IsValid :
    (db : Db) (id : ℕ)
    → IsValid db
    → IsValid (record { documents = erase id db.documents; changes = keep (not_for id) db.changes })
erase-IsValid db id v j =
    rw (history-erased db.changes id j, lookup-erase j id db.documents)
      (elim (Bool-cases (j == id)) [ inl e ↦ rw e refl | inr e ↦ rw e (v j) ])

delete_document-IsValid :
    (db : Db) (workspace_id id : ℕ) → IsValid db → IsValid (delete_document db workspace_id id).0
unfolding delete_document
delete_document-IsValid db workspace_id id v =
    elim (Option-cases (find_document db workspace_id id)) [
      | inl e ↦ rw (e, delete_document) v
      | inr (d, e) ↦ rw (e, delete_document) (erase-IsValid db id v)
    ]

-- The transactions that reach the tables, one after another. A new row has an id of its own.
pub data Transaction : Db → Db → Type 0 where
  creates :
      (db : Db) (id change_id now workspace_id : ℕ) (created_by : Option ℕ) (title : Text)
      (content : Option Node)
      → lookup id db.documents ≡ none
      → Transaction db (create_document db id change_id now workspace_id created_by title content).0
  applies :
      (db : Db) (workspace_id id : ℕ) (c : Change) (change_id now : ℕ)
      → Transaction db (apply_change db workspace_id id c change_id now).0
  updates :
      (db : Db) (workspace_id id version : ℕ) (user_id : Option ℕ) (title : Option Text)
      (content : Option Node) (change_id now : ℕ)
      → Transaction db
          (update_document db workspace_id id version user_id title content change_id now).0
  deletes : (db : Db) (workspace_id id : ℕ) → Transaction db (delete_document db workspace_id id).0

pub data Reach (start : Db) : Db → Type 0 where
  begins : Reach start start
  continues : {db db' : Db} → Reach start db → Transaction db db' → Reach start db'

Transaction-IsValid : {db db' : Db} → Transaction db db' → IsValid db → IsValid db'
Transaction-IsValid (creates db id change_id now workspace_id by title content fresh) v =
    create_document-IsValid db id change_id now workspace_id by title content v fresh
Transaction-IsValid (applies db workspace_id id c change_id now) v =
    apply_change-IsValid db workspace_id id c change_id now v
Transaction-IsValid (updates db workspace_id id version user_id title content change_id now) v =
    update_document-IsValid db workspace_id id version user_id title content change_id now v
Transaction-IsValid (deletes db workspace_id id) v = delete_document-IsValid db workspace_id id v

-- From tables whose logs are whole, no sequence of creations, edits, patches and deletions leads
-- to a document whose log has a gap, a repeat or another head than its version, nor to a log
-- without a document.
pub Reach-IsValid : {start db : Db} → IsValid start → Reach start db → IsValid db
Reach-IsValid v begins = v
Reach-IsValid v (continues r t) = Transaction-IsValid t (Reach-IsValid v r)
