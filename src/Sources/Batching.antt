-- ===== src/Sources/Batching.antt =====
-- api/services/ingestion.py: what a run needs, its batches, and the rows that a batch becomes.
use synapse_canvas.Base.{
  ℕ, zero, suc, Bool, true, false, not, ◌&&◌, Option, none, some, List, [], ◌∷◌, ◌++◌, ◌==◌,
  if◌then◌else◌, keep, map, any, length, take, drop,
}
use synapse_canvas.Base.Texts.{text_eq}
use synapse_canvas.Base.Dict.{lookup}
use synapse_canvas.ProseMirror.Utf16.{Text}
use synapse_canvas.Chunking.Packing.{ChunkDraft}
use synapse_canvas.Sources.{
  SourceStatus, ErrorCode, server_error, Result, Source, SourceChunk, Vector, Tables, set_source,
  delete_source,
}

pub record Provider : Type 0 where
  pub model : ℕ
  pub dimension : ℕ
  pub max_input_tokens : ℕ
  pub count_tokens : Text → ℕ

pub record Settings : Type 0 where
  pub chunk_target_tokens : ℕ
  pub chunk_overlap_tokens : ℕ
  pub chunk_max_tokens : ℕ
  pub embedding_batch_size : ℕ

pub record Extracted : Type 0 where
  pub text : Text
  pub page_starts : List ℕ

-- `Extracted.page_count`, `len(self.page_starts) or None`
abbrev pub page_count : Extracted → Option ℕ
page_count e = if length e.page_starts == 0 then none else some (length e.page_starts)

-- What `embedding_usage.embed` comes to: vectors at a time, and whether the source was deleted
-- meanwhile; an error with its code; or the end of the worker.
pub data Answer : Type 0 where
  embedded : Bool → ℕ → List Vector → Answer
  refused : ErrorCode → Answer
  killed : Answer

-- A worker's run: the digest, what reading the bytes gives, and what each batch of texts comes to.
pub record Worker : Type 0 where
  pub settings : Settings
  pub provider : Provider
  pub digest : Text → Text
  pub extract : Text → ℕ → Result Extracted
  pub embed : List Text → Answer
  pub started_at : ℕ
  pub finished_at : ℕ

-- How the work in the `try` ended.
pub data Ended : Type 0 where
  done : Ended
  fails : ErrorCode → Ended
  is_gone : Ended
  is_killed : Ended

-- What `process_source` returns, if the worker lives.
pub data Outcome : Type 0 where
  busy : Outcome
  gone : Outcome
  reported : SourceStatus → Option ErrorCode → Outcome
  lost : Outcome

-- `fuel` at least the number of items; `size` is positive.
unfoldable pub batches {ℓ} : {A : Type ℓ} → ℕ → ℕ → List A → List (List A)
batches zero size items = []
batches (suc fuel) size [] = []
batches (suc fuel) size (x ∷ xs) = take size (x ∷ xs) ∷ batches fuel size (drop size (x ∷ xs))

abbrev pub Group : Type 0
Group = Text × List ChunkDraft

-- `by_content.setdefault(draft.content, []).append(draft)`
unfoldable pub add_to_group : ChunkDraft → List Group → List Group
unfolding text_eq
add_to_group draft [] = (draft.content, draft ∷ []) ∷ []
add_to_group draft (g ∷ gs) =
    if text_eq g.0 draft.content then (g.0, g.1 ++ (draft ∷ [])) ∷ gs else g ∷ add_to_group draft gs

unfoldable pub group_from : List Group → List ChunkDraft → List Group
unfolding add_to_group
group_from groups [] = groups
group_from groups (d ∷ ds) = group_from (add_to_group d groups) ds

abbrev pub drafts_of_batch : List Group → List ChunkDraft
drafts_of_batch [] = []
drafts_of_batch (g ∷ gs) = g.1 ++ drafts_of_batch gs

-- `list(dict.fromkeys(texts))`
unfoldable pub from_keys : List Text → List Text
unfolding text_eq
from_keys [] = []
from_keys (x ∷ xs) = x ∷ keep (λ y. not (text_eq x y)) (from_keys xs)

-- `dict(zip(texts, vectors))[content]`, the texts being distinct.
unfoldable pub vector_of : List Text → List Vector → Text → Option Vector
unfolding text_eq
vector_of (x ∷ xs) (v ∷ vs) content = if text_eq x content then some v else vector_of xs vs content
vector_of _ _ content = none

abbrev pub new_chunk : Provider → ℕ → ℕ → ChunkDraft → Vector → SourceChunk
new_chunk provider source_id workspace_id draft vector = record {
  source_id = source_id;
  workspace_id = workspace_id;
  chunk_index = draft.index;
  content = draft.content;
  embedding = vector;
  embedding_model = provider.model;
  embedding_dimension = provider.dimension;
  page_number = draft.page_number;
  char_start = draft.char_start;
  char_end = draft.char_end;
  token_count = draft.token_count;
}

unfoldable pub new_chunks :
    Provider → ℕ → ℕ → List Text → List Vector → List ChunkDraft → Option (List SourceChunk)
unfolding vector_of
new_chunks provider source_id workspace_id texts vectors [] = some []
new_chunks provider source_id workspace_id texts vectors (d ∷ ds) =
    let rest = new_chunks provider source_id workspace_id texts vectors ds in
    elim (vector_of texts vectors d.content) [
      | none ↦ none
      | some v ↦ elim rest [
        | none ↦ none
        | some rows ↦ some (new_chunk provider source_id workspace_id d v ∷ rows)
      ]
    ]

abbrev pub is_chunk : ℕ → ℕ → SourceChunk → Bool
is_chunk source_id index c = (c.source_id == source_id) && (c.chunk_index == index)

-- An INSERT of rows under the unique (source_id, chunk_index).
unfoldable pub insert_chunks : List SourceChunk → List SourceChunk → Option (List SourceChunk)
insert_chunks chunks [] = some chunks
insert_chunks chunks (r ∷ rs) =
    if any (is_chunk r.source_id r.chunk_index) chunks
    then none
    else insert_chunks (chunks ++ (r ∷ [])) rs

abbrev pub touch : ℕ → Source → Source
touch now s = record s { updated_at = now }

-- The rows added, the source present, and its progress noted; or nothing.
unfoldable pub store_batch : ℕ → ℕ → List SourceChunk → Tables → Tables × Ended
unfolding insert_chunks set_source
store_batch source_id now rows t = elim (lookup source_id t.sources) [
  | none ↦ (t, is_gone)
  | some source ↦ elim (insert_chunks t.chunks rows) [
    | none ↦ (t, is_gone)
    | some chunks ↦
        (record t { chunks = chunks; sources = set_source source_id (touch now) t.sources }, done)
  ]
]

unfoldable pub after_wait : Bool → ℕ → Tables → Tables
unfolding delete_source
after_wait false source_id t = t
after_wait true source_id t = elim (lookup source_id t.sources) [
  | none ↦ t
  | some source ↦ delete_source source_id source true t
]

-- The rows of a batch of drafts, when its texts have their answer.
unfoldable pub settle :
    Worker → ℕ → ℕ → List ChunkDraft → List Text → Tables → Answer → Tables × Ended
unfolding new_chunks store_batch after_wait
settle w source_id workspace_id drafts texts t killed = (t, is_killed)
settle w source_id workspace_id drafts texts t (refused code) = (t, fails code)
settle w source_id workspace_id drafts texts t (embedded deleted now vectors) =
    let t' = after_wait deleted source_id t in
    if length texts == length vectors
    then (elim (new_chunks w.provider source_id workspace_id texts vectors drafts) [
      | none ↦ (t', fails server_error)
      | some rows ↦ store_batch source_id now rows t'
    ])
    else (t', fails server_error)

unfoldable pub embed_batch : Worker → ℕ → ℕ → List ChunkDraft → Tables → Tables × Ended
unfolding from_keys settle
embed_batch w source_id workspace_id drafts t =
    let texts = from_keys (map (λ d. d.content) drafts) in
    settle w source_id workspace_id drafts texts t (w.embed texts)

-- The next step, unless the one before raised.
abbrev pub and_then : Tables × Ended → (Tables → Tables × Ended) → Tables × Ended
and_then (t, done) next = next t
and_then (t, fails code) next = (t, fails code)
and_then (t, is_gone) next = (t, is_gone)
and_then (t, is_killed) next = (t, is_killed)

unfoldable pub embed_batches : Worker → ℕ → ℕ → List (List Group) → Tables → Tables × Ended
unfolding embed_batch
embed_batches w source_id workspace_id [] t = (t, done)
embed_batches w source_id workspace_id (b ∷ bs) t =
    and_then (embed_batch w source_id workspace_id (drafts_of_batch b) t)
      (embed_batches w source_id workspace_id bs)
