-- ===== src/Queries/Apply/Once.antt =====
-- What `apply_query` of api/services/ai_queries.py stores, and what a retry stores.
use synapse_canvas.Base.{
  ℕ, ◌+◌, ◌≡◌, ◌≢◌, refl, sym, ap, ◌∙◌, ◌⊎◌, inl, inr, List, arith, Bool, true, not, ◌&&◌, Option,
  some, ◌==◌, if◌then◌else◌, Bool-cases, Option-cases, subst,
}
use synapse_canvas.Base.Dict.{lookup}
use synapse_canvas.ProseMirror.Edit.{Edit}
use synapse_canvas.Document.{
  Db, Document, DocumentSnapshot, snapshot, Change, AppliedChange, find_document, apply_change,
  get_or,
}
use synapse_canvas.Document
use synapse_canvas.Document.Head.{
  Request, apply, run, At, run-At, accepted-At, apply_change-Outcome, Outcome,
}
use synapse_canvas.Document.Log.{find_document-some}
use synapse_canvas.Queries.{AiQuery}
use synapse_canvas.Queries.Apply.{
  Result, ok, check_bounds, is_completed, is_blank_text, text_or_empty, edit_for, or_stored,
  applied, change_of, apply_edit, apply_to, apply_query,
}

-- A response that may be applied.
abbrev pub is_ready : AiQuery → Bool
is_ready query = is_completed query.status && not (is_blank_text (text_or_empty query.response))

-- The request to `documents.apply_change` that an applied query makes.
abbrev pub request_of : AiQuery → ℕ → ℕ → ℕ → Edit → ℕ → ℕ → Request
request_of query query_id user_id version edit change_id now = record {
  workspace_id = query.workspace_id;
  id = query.document_id;
  change = change_of query_id user_id version edit;
  change_id = change_id;
  now = now;
}

module _ (db : Db) (query_id : ℕ) (query : AiQuery) (user_id version : ℕ)
    (selection_from selection_to : Option ℕ) (change_id now : ℕ) where
  abbrev chosen_start : Option ℕ
  chosen_start = or_stored selection_from query.selection_from

  abbrev chosen_stop : Option ℕ
  chosen_stop = or_stored selection_to query.selection_to

  -- Refused with the tables as they were, or an edit of the stored document handed on.
  abbrev pub Ends : Db × Result AppliedChange → Type 0
  Ends out =
      ((out.0 ≡ db) × ((a : AppliedChange) → out.1 ≢ ok a))
      ⊎ ((d : Document) × (edit : Edit) × (is_ready query ≡ true)
          × (find_document db query.workspace_id query.document_id ≡ some d)
          × (d.version ≡ version)
          × (check_bounds d.body chosen_start chosen_stop ≡ true)
          × (edit_for query d.body chosen_start chosen_stop ≡ some edit)
          × (out
              ≡ applied (apply db (request_of query query_id user_id version edit change_id now))))

  apply_to-Ends :
      (d : Document)
      → is_ready query ≡ true
      → find_document db query.workspace_id query.document_id ≡ some d
      → Ends (apply_to db query_id query user_id version chosen_start chosen_stop d change_id now)
  unfolding apply_to apply_edit
  apply_to-Ends d ready found = elim (Bool-cases (d.version == version)) [
    | inr v ↦ inl (rw (v, apply_to) refl, λ a. rw (v, apply_to) (λ h. cc))
    | inl v ↦ elim (Bool-cases (check_bounds d.body chosen_start chosen_stop)) [
      | inr b ↦ inl (rw (v, apply_to) (rw b refl), λ a. rw (v, apply_to) (rw b (λ h. cc)))
      | inl b ↦ elim (Option-cases (edit_for query d.body chosen_start chosen_stop)) [
        | inl e ↦ inl (
          rw (v, apply_to) (rw b (rw (e, apply_edit) refl)),
          λ a. rw (v, apply_to) (rw b (rw (e, apply_edit) (λ h. cc))),
        )
        | inr (edit, e) ↦ inr (
          d,
          edit,
          ready,
          found,
          ground arith,
          b,
          e,
          rw (v, apply_to) (rw b (rw (e, apply_edit) refl)),
        )
      ]
    ]
  ]

  pub apply_query-Ends :
      Ends (apply_query db query_id query user_id version selection_from selection_to change_id now)
  unfolding apply_query
  apply_query-Ends = elim (Bool-cases (is_ready query)) [
    | inr r ↦ inl (rw (r, apply_query) refl, λ a. rw (r, apply_query) (λ h. cc))
    | inl r ↦ elim (Option-cases (find_document db query.workspace_id query.document_id)) [
      | inl e ↦ inl (
        rw (r, apply_query) (rw (e, apply_query) refl),
        λ a. rw (r, apply_query) (rw (e, apply_query) (λ h. cc)),
      )
      | inr (d, e) ↦
          let out =
            apply_query db query_id query user_id version selection_from selection_to change_id
              now in
          let same : out
              ≡ apply_to db query_id query user_id version chosen_start chosen_stop d change_id
                  now =
            rw (r, apply_query) (rw (e, apply_query) refl) in
          subst Ends (sym same) (apply_to-Ends d r e)
    ]
  ]

applied-ok :
    (out : Db × Document.Result AppliedChange) (a : AppliedChange)
    → (applied out).1 ≡ ok a
    → out.1 ≡ Document.done a
applied-ok (db, Document.done b) a h = ground arith
applied-ok (db, Document.not_found) a h = cc
applied-ok (db, Document.stale s) a h = cc
applied-ok (db, Document.no_change) a h = cc

applied-tables : (out : Db × Document.Result AppliedChange) → (applied out).0 ≡ out.0
applied-tables (db, Document.done b) = refl
applied-tables (db, Document.not_found) = refl
applied-tables (db, Document.stale s) = refl
applied-tables (db, Document.no_change) = refl

stored_by :
    (db : Db) (r : Request) (d : Document) (a : AppliedChange)
    (out : Db × Document.Result AppliedChange)
    → lookup r.id db.documents ≡ some d
    → Outcome db r.workspace_id r.id r.change out
    → out.1 ≡ Document.done a
    → (row : Document) × (row.body ≡ get_or r.change.content d.body)
      × (row.title ≡ get_or r.change.title d.title)
      × (row.version ≡ r.change.base_version + 1)
      × ((j : ℕ)
          → lookup j out.0.documents ≡ (if j == r.id then some row else lookup j db.documents))
stored_by db r d a (db', Document.done b) at (d', at', same, next, body, title, place, place', rows)
      h =
    let row : d' ≡ d = ground arith in
    (
      b.document.row,
      body ∙ ap (λ x. get_or r.change.content x.body) row,
      title ∙ ap (λ x. get_or r.change.title x.title) row,
      next,
      rows,
    )
stored_by db r d a (db', Document.stale s) at o h = cc
stored_by db r d a (db', Document.not_found) at o h = cc
stored_by db r d a (db', Document.no_change) at o h = elim o [ ]

-- The row that an accepted change leaves.
stored :
    (db : Db) (r : Request) (d : Document) (a : AppliedChange)
    → find_document db r.workspace_id r.id ≡ some d
    → (apply db r).1 ≡ Document.done a
    → (row : Document) × (row.body ≡ get_or r.change.content d.body)
      × (row.title ≡ get_or r.change.title d.title)
      × (row.version ≡ r.change.base_version + 1)
      × ((j : ℕ)
          → lookup j (apply db r).0.documents
            ≡ (if j == r.id then some row else lookup j db.documents))
stored db r d a found accepted =
    stored_by db r d a (apply db r) (find_document-some db r.workspace_id r.id d found).0
      (apply_change-Outcome db r.workspace_id r.id r.change r.change_id r.now) accepted

-- When `apply_query` succeeds, the response was completed and not blank, the stored document was
-- at the version that was asked for, and it has become what `_edit_for` computes from it and the
-- selection: that content, the same title, the next version, and every other document as it was.
pub apply_query-stores :
    (db : Db) (query_id : ℕ) (query : AiQuery) (user_id version : ℕ)
    (selection_from selection_to : Option ℕ) (change_id now : ℕ) (a : AppliedChange)
    → let out =
        apply_query db query_id query user_id version selection_from selection_to change_id now in
      out.1 ≡ ok a
      → (is_ready query ≡ true)
        × ((d : Document) × (edit : Edit) × (row : Document) × (find_document db query.workspace_id
                query.document_id
              ≡ some d)
            × (d.version ≡ version)
            × (edit_for query d.body
                  (or_stored selection_from query.selection_from)
                  (or_stored selection_to query.selection_to)
                ≡ some edit)
            × (row.body ≡ edit.result)
            × (row.title ≡ d.title)
            × (row.version ≡ version + 1)
            × ((j : ℕ)
                → lookup j out.0.documents
                  ≡ (if j == query.document_id then some row else lookup j db.documents)))
apply_query-stores db query_id query user_id version from to change_id now a done =
    elim (apply_query-Ends db query_id query user_id version from to change_id now) [
      | inl (same, refused) ↦ absurd (refused a done)
      | inr (d, edit, ready, found, at, bounds, computed, out) ↦
          let r = request_of query query_id user_id version edit change_id now in
          let accepted : (apply db r).1 ≡ Document.done a =
            applied-ok (apply db r) a (sym (ap (λ o. o.1) out) ∙ done) in
          let (row, body, title, next, others) = stored db r d a found accepted in
          (
            ready,
            (
              d,
              edit,
              row,
              found,
              at,
              computed,
              body,
              title,
              next,
              λ j.
                  ap (λ o. lookup j o.0.documents) out
                  ∙ (ap (λ t. lookup j t.documents) (applied-tables (apply db r)) ∙ others j),
            ),
          )
    ]

-- An applied query cannot insert twice: once `apply_query` has succeeded at a version, every later
-- call for that document at the same version, by the same query or another, with any selection
-- and after any edits in between, fails and leaves the tables as they were.
pub apply_query_once :
    (db : Db) (query_id : ℕ) (query : AiQuery) (user_id version : ℕ)
    (selection_from selection_to : Option ℕ) (change_id now : ℕ) (a : AppliedChange)
    (between : List Request) (query_id' : ℕ) (query' : AiQuery) (user_id' : ℕ)
    (selection_from' selection_to' : Option ℕ) (change_id' now' : ℕ)
    → let out =
        apply_query db query_id query user_id version selection_from selection_to change_id now in
      let later = run out.0 between in
      let out' =
        apply_query later query_id' query' user_id' version selection_from' selection_to' change_id'
          now' in
      out.1 ≡ ok a
      → query'.document_id ≡ query.document_id
      → query'.workspace_id ≡ query.workspace_id
      → (out'.0 ≡ later) × ((b : AppliedChange) → out'.1 ≢ ok b)
apply_query_once db query_id query user_id version from to change_id now a between query_id' query'
      user_id' from' to' change_id' now' done same_document same_workspace =
    let first = apply_query db query_id query user_id version from to change_id now in
    let later = run first.0 between in
    elim (apply_query-Ends db query_id query user_id version from to change_id now) [
      | inl (same, refused) ↦ absurd (refused a done)
      | inr (d, edit, ready, found, at, bounds, computed, out) ↦
          let r = request_of query query_id user_id version edit change_id now in
          let accepted : (apply db r).1 ≡ Document.done a =
            applied-ok (apply db r) a (sym (ap (λ o. o.1) out) ∙ done) in
          let tables : (apply db r).0 ≡ first.0 =
            sym (ap (λ o. o.0) out ∙ applied-tables (apply db r)) in
          let (d', there, place, newer) =
            run-At first.0 between query.document_id query.workspace_id (version + 1) (
              subst (λ t. At t query.document_id query.workspace_id (version + 1)) tables
                (accepted-At db r (apply db r) a
                  (apply_change-Outcome db r.workspace_id r.id r.change r.change_id r.now)
                  accepted)) in
          elim (apply_query-Ends later query_id' query' user_id' version from' to' change_id'
            now') [
              | inl refused ↦ refused
              | inr (e, edit', ready', found', at', bounds', computed', out') ↦
                  let (there', place') =
                    find_document-some later query'.workspace_id query'.document_id e found' in
                  let row : e ≡ d' =
                    ground (arith, ap (λ k. lookup k later.documents) same_document) in
                  absurd (omega (arith, ap (λ x. x.version) row))
            ]
    ]
