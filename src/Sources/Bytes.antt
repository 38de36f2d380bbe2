-- ===== src/Sources/Bytes.antt =====
-- api/services/sources.py and ingestion.py: each write of a row, as to bytes and copies stored.
use synapse_canvas.Base.{
  ℕ, ◌≤◌, ◌≡◌, refl, Bool, true, false, not, List, [], ◌∷◌, ◌==◌, count_if, arith, Option-cases,
  inl, inr,
}
use synapse_canvas.Base.Counts.{count_if-keep}
use synapse_canvas.Base.Dict.{Dict, lookup, erase}
use synapse_canvas.ProseMirror.Utf16.{Text}
use synapse_canvas.Sources.{
  Source, SourceChunk, Tables, delete_source, set_source, storage_used, is_copy,
}
use synapse_canvas.Sources.Batching.{is_chunk, insert_chunks, store_batch, after_wait, touch}
use synapse_canvas.Sources.Progress.{Unique, insert_chunks-Unique}

-- No more bytes and copies than before, and the passages still under one key each.
abbrev pub Keeps : Tables → Tables → Type 0
Keeps t t' =
    ((workspace : ℕ) → storage_used workspace t'.sources ≤ storage_used workspace t.sources)
    × ((workspace : ℕ) (checksum : Text)
        → count_if (is_copy workspace checksum) t'.sources
          ≤ count_if (is_copy workspace checksum) t.sources)
    × (Unique t.chunks → Unique t'.chunks)

pub Keeps-refl : (t : Tables) → Keeps t t
Keeps-refl t = (λ w. omega arith, λ w c. omega arith, λ u. u)

pub Keeps-trans : (t u v : Tables) → Keeps t u → Keeps u v → Keeps t v
Keeps-trans t u v (a, b, c) (a', b', c') =
    (λ w. omega (arith, a w, a' w), λ w s. omega (arith, b w s, b' w s), λ h. c' (c h))

-- A change of a row that leaves its workspace, size and checksum.
abbrev pub Same : (Source → Source) → Type 0
Same f =
    (s : Source)
    → ((f s).workspace_id ≡ s.workspace_id)
      × ((f s).size_bytes ≡ s.size_bytes)
      × ((f s).checksum ≡ s.checksum)

storage_used-set_source :
    (workspace key : ℕ) (f : Source → Source) (rows : Dict Source)
    → Same f
    → storage_used workspace (set_source key f rows) ≡ storage_used workspace rows
unfolding storage_used set_source
storage_used-set_source workspace key f [] same = refl
storage_used-set_source workspace key f (row ∷ rows) same =
    ground (arith, storage_used-set_source workspace key f rows same, same row.1)

copies-set_source :
    (workspace : ℕ) (checksum : Text) (key : ℕ) (f : Source → Source) (rows : Dict Source)
    → Same f
    → count_if (is_copy workspace checksum) (set_source key f rows)
      ≡ count_if (is_copy workspace checksum) rows
unfolding set_source
copies-set_source workspace checksum key f [] same = refl
copies-set_source workspace checksum key f (row ∷ rows) same =
    ground (arith, copies-set_source workspace checksum key f rows same, same row.1)

pub set_source-Keeps :
    (t : Tables) (key : ℕ) (f : Source → Source)
    → Same f
    → Keeps t (record t { sources = set_source key f t.sources })
set_source-Keeps t key f same = (
  λ w. omega (arith, storage_used-set_source w key f t.sources same),
  λ w c. omega (arith, copies-set_source w c key f t.sources same),
  λ u. u,
)

storage_used-erase :
    (workspace key : ℕ) (rows : Dict Source)
    → storage_used workspace (erase key rows) ≤ storage_used workspace rows
unfolding storage_used
storage_used-erase workspace key [] = omega arith
storage_used-erase workspace key (row ∷ rows) =
    ground (arith, storage_used-erase workspace key rows)

copies-erase :
    (workspace : ℕ) (checksum : Text) (key : ℕ) (rows : Dict Source)
    → count_if (is_copy workspace checksum) (erase key rows)
      ≤ count_if (is_copy workspace checksum) rows
copies-erase workspace checksum key [] = omega arith
copies-erase workspace checksum key (row ∷ rows) =
    ground (arith, copies-erase workspace checksum key rows)

pub delete_source-Keeps :
    (t : Tables) (source_id : ℕ) (source : Source) (storage_up : Bool)
    → Keeps t (delete_source source_id source storage_up t)
unfolding delete_source
delete_source-Keeps t source_id source storage_up = (
  λ w. storage_used-erase w source_id t.sources,
  λ w c. copies-erase w c source_id t.sources,
  λ u s i.
      omega
        (arith, u s i, count_if-keep (is_chunk s i) (λ c. not (c.source_id == source_id)) t.chunks),
)

pub after_wait-Keeps :
    (deleted : Bool) (source_id : ℕ) (t : Tables) → Keeps t (after_wait deleted source_id t)
unfolding after_wait
after_wait-Keeps false source_id t = Keeps-refl t
after_wait-Keeps true source_id t = elim (Option-cases (lookup source_id t.sources)) [
  | inl e ↦ rw (e, after_wait) (Keeps-refl t)
  | inr (source, e) ↦ rw (e, after_wait) (delete_source-Keeps t source_id source true)
]

pub store_batch-Keeps :
    (source_id now : ℕ) (rows : List SourceChunk) (t : Tables)
    → Keeps t (store_batch source_id now rows t).0
unfolding store_batch
store_batch-Keeps source_id now rows t = elim (Option-cases (lookup source_id t.sources)) [
  | inl e ↦ rw (e, store_batch) (Keeps-refl t)
  | inr (source, e) ↦ elim (Option-cases (insert_chunks t.chunks rows)) [
    | inl f ↦ rw (e, store_batch) (rw f (Keeps-refl t))
    | inr (chunks, f) ↦
        let (a, b, c) = set_source-Keeps t source_id (touch now) (λ s. (refl, refl, refl)) in
        rw (e, store_batch) (rw f (a, b, λ u. insert_chunks-Unique t.chunks rows chunks u f))
  ]
]
