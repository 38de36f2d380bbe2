-- ===== src/Document/Head.antt =====
-- The version as the token of a compare-and-set: what an accepted change does to the tables, what
-- a refused one leaves alone, and that of all the edits made against one version one is accepted.
use synapse_canvas.Base.{
  ℕ, ◌+◌, ◌≤◌, ◌<◌, ◌≡◌, refl, sym, ap, ◌∙◌, inl, inr, ◌≢◌, List, [], ◌∷◌, arith, some, ◌==◌,
  if◌then◌else◌, Bool-cases,
}
use synapse_canvas.Base.Dict.{lookup, lookup-insert}
use synapse_canvas.Document.{
  Db, Document, DocumentSnapshot, Change, Result, done, not_found, stale, no_change, AppliedChange,
  find_document, write, apply_change, get_or,
}
use synapse_canvas.Document.Log.{Ends, apply_change-Ends, find_document-some}

-- What is known of a change by how it ended.
abbrev pub Outcome : Db → ℕ → ℕ → Change → Db × Result AppliedChange → Type 0
Outcome db w id c (db', done a) =
    (d : Document) × (lookup id db.documents ≡ some d)
    × (d.version ≡ c.base_version)
    × (a.document.row.version ≡ c.base_version + 1)
    × (a.document.row.body ≡ get_or c.content d.body)
    × (a.document.row.title ≡ get_or c.title d.title)
    × (d.workspace_id ≡ w)
    × (a.document.row.workspace_id ≡ w)
    × ((j : ℕ)
        → lookup j db'.documents ≡ (if j == id then some a.document.row else lookup j db.documents))
Outcome db w id c (db', stale s) =
    (db' ≡ db)
    × (s.id ≡ id)
    × (lookup id db.documents ≡ some s.row)
    × (s.row.version ≢ c.base_version)
Outcome db w id c (db', not_found) = db' ≡ db
Outcome db w id c (db', no_change) = ⊥

write-Outcome :
    (db : Db) (w id : ℕ) (d : Document) (c : Change) (change_id now : ℕ)
    → lookup id db.documents ≡ some d
    → d.workspace_id ≡ w
    → d.version ≡ c.base_version
    → Outcome db w id c (write db id d c change_id now)
unfolding write
write-Outcome db w id d c change_id now at place same =
    (d, at, same, omega arith, refl, refl, place, place, λ j. lookup-insert j id _ db.documents)

-- An accepted change was made against the stored version; it moves that version on by one, sets
-- the fields that it names and leaves the others and every other document alone. A stale one
-- changes nothing and reports the stored row; so does one about a document that is not there.
pub apply_change-Outcome :
    (db : Db) (workspace_id id : ℕ) (c : Change) (change_id now : ℕ)
    → Outcome db workspace_id id c (apply_change db workspace_id id c change_id now)
apply_change-Outcome db workspace_id id c change_id now =
    elim (apply_change-Ends db workspace_id id c change_id now) [
      | inl (e, out) ↦ rw out refl
      | inr (d, e, inl (differs, out)) ↦
          rw out (refl, refl, (find_document-some db workspace_id id d e).0, differs)
      | inr (d, e, inr (same, out)) ↦
          let (at, place) = find_document-some db workspace_id id d e in
          rw out (write-Outcome db workspace_id id d c change_id now at place same)
    ]

-- A request as it reaches `apply_change`.
pub record Request : Type 0 where
  pub workspace_id : ℕ
  pub id : ℕ
  pub change : Change
  pub change_id : ℕ
  pub now : ℕ

abbrev pub apply : Db → Request → Db × Result AppliedChange
apply db r = apply_change db r.workspace_id r.id r.change r.change_id r.now

-- The row lock makes concurrent requests a sequence.
unfoldable pub run : Db → List Request → Db
run db [] = db
run db (r ∷ rs) = run (apply db r).0 rs

-- A document at or past a version.
abbrev pub At : Db → ℕ → ℕ → ℕ → Type 0
At db id workspace_id version =
    (d : Document) × (lookup id db.documents ≡ some d)
    × (d.workspace_id ≡ workspace_id)
    × (version ≤ d.version)

Outcome-At :
    (db : Db) (r : Request) (out : Db × Result AppliedChange) (id workspace_id version : ℕ)
    → Outcome db r.workspace_id r.id r.change out
    → At db id workspace_id version
    → At out.0 id workspace_id version
Outcome-At db r (db', done a) id w v (d, at, same, next, body, title, place, place', rows)
      (d', at', p, le) =
    elim (Bool-cases (id == r.id)) [
      | inl e ↦
          let own : id ≡ r.id = ground arith in
          let row : d' ≡ d = ground (arith, ap (λ k. lookup k db.documents) own) in
          (
            a.document.row,
            rows id ∙ (rw e),
            place' ∙ sym place ∙ ap (λ r. r.workspace_id) (sym row) ∙ p,
            omega (arith, ap (λ r. r.version) row),
          )
      | inr e ↦ (d', rows id ∙ (rw e at'), p, le)
    ]
Outcome-At db r (db', stale s) id w v (same, own, row, differs) at = rw same at
Outcome-At db r (db', not_found) id w v same at = rw same at
Outcome-At db r (db', no_change) id w v o at = elim o [ ]

pub run-At :
    (db : Db) (rs : List Request) (id workspace_id version : ℕ)
    → At db id workspace_id version
    → At (run db rs) id workspace_id version
unfolding run
run-At db [] id w v at = at
run-At db (r ∷ rs) id w v at = run-At (apply db r).0 rs id w v (
    Outcome-At db r (apply db r) id w v
      (apply_change-Outcome db r.workspace_id r.id r.change r.change_id r.now) at)

pub accepted-At :
    (db : Db) (r : Request) (out : Db × Result AppliedChange) (a : AppliedChange)
    → Outcome db r.workspace_id r.id r.change out
    → out.1 ≡ done a
    → At out.0 r.id r.workspace_id (r.change.base_version + 1)
accepted-At db r (db', done b) a (d, at, same, next, body, title, place, place', rows) h =
    (b.document.row, rows r.id ∙ (ground arith), place', omega (arith, next))
accepted-At db r (db', stale s) a o h = cc
accepted-At db r (db', not_found) a o h = cc
accepted-At db r (db', no_change) a o h = cc

pub find_document-at :
    (db : Db) (workspace_id id : ℕ) (d : Document)
    → lookup id db.documents ≡ some d
    → d.workspace_id ≡ workspace_id
    → find_document db workspace_id id ≡ some d
unfolding find_document
find_document-at db workspace_id id d at place = ground arith

At-stale :
    (db : Db) (r : Request) (version : ℕ) (out : Db × Result AppliedChange)
    → Ends db r.workspace_id r.id r.change r.change_id r.now out
    → At db r.id r.workspace_id version
    → r.change.base_version < version
    → (s : DocumentSnapshot) × (out ≡ (db, stale s)) × (r.change.base_version < s.row.version)
At-stale db r version out (inl (missing, same)) (d, at, place, le) lt =
    absurd (ground (arith, find_document-at db r.workspace_id r.id d at place))
At-stale db r version out (inr (d', found, inl (differs, same))) (d, at, place, le) lt =
    let found' = find_document-at db r.workspace_id r.id d at place in
    let row : d' ≡ d = ground arith in
    (record { id = r.id; row = d' }, same, omega (arith, ap (λ x. x.version) row))
At-stale db r version out (inr (d', found, inr (equal, same))) (d, at, place, le) lt =
    let found' = find_document-at db r.workspace_id r.id d at place in
    let row : d' ≡ d = ground arith in absurd (omega (arith, ap (λ x. x.version) row))

-- Of all the edits that are made against one version of a document, in whatever order they come
-- and whatever else is applied in between, one is accepted: any later one is refused as stale,
-- changes nothing, and is told of a newer version.
pub one_edit_per_version :
    (db : Db) (r r' : Request) (between : List Request) (a : AppliedChange)
    → (apply db r).1 ≡ done a
    → r'.id ≡ r.id
    → r'.workspace_id ≡ r.workspace_id
    → r'.change.base_version ≡ r.change.base_version
    → let later = run (apply db r).0 between in
      (s : DocumentSnapshot) × (apply later r' ≡ (later, stale s))
      × (r'.change.base_version < s.row.version)
one_edit_per_version db r r' between a ok same_id same_ws same_base =
    let later = run (apply db r).0 between in
    let at : At later r'.id r'.workspace_id (r.change.base_version + 1) =
      rw (same_id, same_ws)
        (run-At (apply db r).0 between r.id r.workspace_id (r.change.base_version + 1) (
          accepted-At db r (apply db r) a
            (apply_change-Outcome db r.workspace_id r.id r.change r.change_id r.now) ok)) in
    At-stale later r' (r.change.base_version + 1) (apply later r')
      (apply_change-Ends later r'.workspace_id r'.id r'.change r'.change_id r'.now) at (omega arith)
