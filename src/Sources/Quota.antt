-- ===== src/Sources/Quota.antt =====
-- api/services/sources.py: uploads under the lock of the workspace, and its quota.
use synapse_canvas.Base.{
  ℕ, ◌+◌, ◌≤◌, ◌<◌, ◌≡◌, refl, sym, ap, subst, Bool, ◌&&◌, none, [], ◌∷◌, ◌++◌, ltb, count_if,
  arith, Bool-cases, Option-cases, inl, inr,
}
use synapse_canvas.Base.Counts.{count_if-append, find-count_if}
use synapse_canvas.Base.Texts.{text_eq_sound}
use synapse_canvas.Base.Dict.{Dict}
use synapse_canvas.ProseMirror.Utf16.{Text}
use synapse_canvas.Sources.{
  Source, Tables, Result, ok, err, delete_source, retry_source, storage_used, is_copy,
  find_duplicate, Measured, Conditions, new_source, upload, commit_upload, is_failed, pending,
}
use synapse_canvas.Sources.Ingestion.{process}
use synapse_canvas.Sources.Batching.{Worker}
use synapse_canvas.Sources.Progress.{Unique}
use synapse_canvas.Sources.Bytes.{Keeps, Keeps-refl, delete_source-Keeps, set_source-Keeps}
use synapse_canvas.Sources.Keeps.{process-Keeps}

-- Within the quota, unless it is 0; one row of a file in a workspace; one row of a passage.
unfoldable pub WithinQuota : ℕ → Tables → Type 0
WithinQuota quota t =
    (0 < quota → (workspace : ℕ) → storage_used workspace t.sources ≤ quota)
    × ((workspace : ℕ) (checksum : Text) → count_if (is_copy workspace checksum) t.sources ≤ 1)
    × Unique t.chunks

Keeps-WithinQuota :
    (quota : ℕ) (t t' : Tables) → Keeps t t' → WithinQuota quota t → WithinQuota quota t'
unfolding WithinQuota
Keeps-WithinQuota quota t t' (a, b, c) (x, y, z) =
    (λ positive w. omega (arith, a w, x positive w), λ w s. omega (arith, b w s, y w s), c z)

-- What may happen between any two transactions, each on the tables that it finds.
pub data Event (quota : ℕ) : Tables → Tables → Type 0 where
  uploads :
      (at : Conditions) (workspace_id user_id : ℕ) (measured : Result Measured) (before t : Tables)
      → at.quota ≡ quota
      → Event quota t (upload at workspace_id user_id measured before t).0
  deletes :
      (source_id : ℕ) (source : Source) (storage_up : Bool) (t : Tables)
      → Event quota t (delete_source source_id source storage_up t)
  retries :
      (now source_id : ℕ) (source : Source) (queue_up : Bool) (t : Tables)
      → Event quota t (retry_source now source_id source queue_up t).0
  works : (w : Worker) (source_id : ℕ) (t : Tables) → Event quota t (process w source_id t).0

pub data Reach (quota : ℕ) (start : Tables) : Tables → Type 0 where
  begins : Reach quota start start
  continues : {t t' : Tables} → Reach quota start t → Event quota t t' → Reach quota start t'

storage_used-append :
    (workspace : ℕ) (xs ys : Dict Source)
    → storage_used workspace (xs ++ ys) ≡ storage_used workspace xs + storage_used workspace ys
unfolding storage_used
storage_used-append workspace [] ys = omega arith
storage_used-append workspace (x ∷ xs) ys = omega (arith, storage_used-append workspace xs ys)

-- The row added when the file is new and fits.
added-WithinQuota :
    (quota : ℕ) (at : Conditions) (workspace_id user_id : ℕ) (m : Measured) (t t' : Tables)
    → (0 < quota → storage_used workspace_id t.sources + m.size ≤ quota)
    → find_duplicate workspace_id m.checksum t.sources ≡ none
    → t'.sources
      ≡ t.sources ++ ((at.source_id, new_source workspace_id user_id at.source_id at.now m) ∷ [])
    → t'.chunks ≡ t.chunks
    → WithinQuota quota t
    → WithinQuota quota t'
unfolding WithinQuota find_duplicate storage_used
added-WithinQuota quota at workspace_id user_id m t t' fits new rows chunks (x, y, z) =
    let row = new_source workspace_id user_id at.source_id at.now m in
    let added : Dict Source = (at.source_id, row) ∷ [] in
    (
      λ positive w. ground (
        arith,
        fits positive,
        x positive w,
        ap (storage_used w) rows,
        storage_used-append w t.sources added,
        ap (λ k. storage_used k t.sources) {x = workspace_id} {y = w},
      ),
      λ w s. ground (
        arith,
        y w s,
        ap (count_if (is_copy w s)) rows,
        count_if-append (is_copy w s) t.sources added,
        find-count_if (is_copy workspace_id m.checksum) t.sources new,
        text_eq_sound m.checksum s,
        ap (λ k. count_if (is_copy k m.checksum) t.sources) {x = workspace_id} {y = w},
        ap (λ k. count_if (is_copy w k) t.sources) {x = m.checksum} {y = s},
      ),
      subst Unique (sym chunks) z,
    )

commit_upload-WithinQuota :
    (quota : ℕ) (at : Conditions) (workspace_id user_id : ℕ) (m : Measured) (t : Tables)
    → (0 < quota → storage_used workspace_id t.sources + m.size ≤ quota)
    → WithinQuota quota t
    → WithinQuota quota (commit_upload at workspace_id user_id m t).0
unfolding commit_upload
commit_upload-WithinQuota quota at workspace_id user_id m t fits h =
    elim (Option-cases (find_duplicate workspace_id m.checksum t.sources)) [
      | inr (existing, e) ↦ rw (e, commit_upload) (Keeps-WithinQuota quota t _ (Keeps-refl t) h)
      | inl e ↦ elim (Bool-cases at.commit_succeeds) [
        | inr f ↦ rw (e, commit_upload) (rw f (Keeps-WithinQuota quota t _ (Keeps-refl t) h))
        | inl f ↦
            rw (e, commit_upload)
              (rw f (added-WithinQuota quota at workspace_id user_id m t _ fits e refl refl h))
      ]
    ]

upload-WithinQuota :
    (quota : ℕ) (at : Conditions) (workspace_id user_id : ℕ) (measured : Result Measured)
    (before t : Tables)
    → at.quota ≡ quota
    → WithinQuota quota t
    → WithinQuota quota (upload at workspace_id user_id measured before t).0
unfolding upload
upload-WithinQuota quota at workspace_id user_id (err code) before t same h = h
upload-WithinQuota quota at workspace_id user_id (ok m) before t same h =
    elim (Option-cases (find_duplicate workspace_id m.checksum before.sources)) [
      | inr (existing, e) ↦ rw (e, upload) h
      | inl e ↦
          elim (Bool-cases
            (ltb 0 at.quota && ltb at.quota (storage_used workspace_id t.sources + m.size))) [
              | inl f ↦ rw (e, upload) (rw f h)
              | inr f ↦
                  rw (e, upload)
                    (rw f (
                      commit_upload-WithinQuota quota at workspace_id user_id m t
                        (λ positive. ground arith) h))
            ]
    ]

retry_source-Keeps :
    (now source_id : ℕ) (source : Source) (queue_up : Bool) (t : Tables)
    → Keeps t (retry_source now source_id source queue_up t).0
unfolding retry_source
retry_source-Keeps now source_id source queue_up t = elim (Bool-cases (is_failed source.status)) [
  | inr f ↦ rw (f, retry_source) (Keeps-refl t)
  | inl f ↦
      rw (f, retry_source)
        (set_source-Keeps t source_id
          (λ s. record s { status = pending; error_code = none; updated_at = now })
          (λ s. (refl, refl, refl)))
]

Event-WithinQuota :
    (quota : ℕ) {t t' : Tables} → Event quota t t' → WithinQuota quota t → WithinQuota quota t'
Event-WithinQuota quota (uploads at workspace_id user_id measured before t same) h =
    upload-WithinQuota quota at workspace_id user_id measured before t same h
Event-WithinQuota quota {t' = t'} (deletes source_id source storage_up t) h =
    Keeps-WithinQuota quota t t' (delete_source-Keeps t source_id source storage_up) h
Event-WithinQuota quota {t' = t'} (retries now source_id source queue_up t) h =
    Keeps-WithinQuota quota t t' (retry_source-Keeps now source_id source queue_up t) h
Event-WithinQuota quota {t' = t'} (works w source_id t) h =
    Keeps-WithinQuota quota t t' (process-Keeps w source_id t) h

-- Over any order of uploads, each after a duplicate check on tables of any earlier time, and of
-- deletions, retries and runs of the worker, successful, failed or killed: a workspace never stores
-- more than its quota, unless the quota is 0; a file is stored once in a workspace; and no passage
-- of a source is stored twice.
pub Reach-WithinQuota :
    (quota : ℕ) (start : Tables) {t : Tables}
    → WithinQuota quota start
    → Reach quota start t
    → WithinQuota quota t
Reach-WithinQuota quota start h begins = h
Reach-WithinQuota quota start h (continues r e) =
    Event-WithinQuota quota e (Reach-WithinQuota quota start h r)
