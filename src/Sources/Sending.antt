-- ===== src/Sources/Sending.antt =====
-- api/services/ingestion.py: the passages that a run embeds, batch after batch.
use synapse_canvas.Base.{
  ℕ, ◌≡◌, refl, ap, ◌∙◌, Bool, true, false, Option, none, some, List, [], ◌∷◌, ◌++◌, ◌==◌, find,
  length, arith, append-nil, append_assoc, Bool-cases, Option-cases, inl, inr, map,
}
use synapse_canvas.Base.Counts.{first_of, find-append}
use synapse_canvas.Base.Dict.{lookup, erase, lookup-erase}
use synapse_canvas.ProseMirror.Utf16.{Text}
use synapse_canvas.Chunking.Packing.{ChunkDraft}
use synapse_canvas.Sources.{SourceChunk, Tables, Vector, delete_source}
use synapse_canvas.Sources.Ingestion.{has_index}
use synapse_canvas.Sources.Batching.{
  Provider, Worker, Ended, done, fails, is_gone, is_killed, Answer, embedded, refused, killed,
  Group, drafts_of_batch, is_chunk, new_chunks, insert_chunks, store_batch, after_wait, embed_batch,
  embed_batches, settle, and_then, from_keys, vector_of,
}
use synapse_canvas.Sources.Grouping.{sent}

-- What a passage is, by whatever run it was stored.
pub record Passage : Type 0 where
  pub content : Text
  pub char_start : ℕ
  pub char_end : ℕ
  pub page_number : Option ℕ
  pub model : ℕ
  pub dimension : ℕ

abbrev pub passage_of_chunk : SourceChunk → Passage
passage_of_chunk c = record {
  content = c.content;
  char_start = c.char_start;
  char_end = c.char_end;
  page_number = c.page_number;
  model = c.embedding_model;
  dimension = c.embedding_dimension;
}

abbrev pub passage_of_draft : Provider → ChunkDraft → Passage
passage_of_draft p d = record {
  content = d.content;
  char_start = d.char_start;
  char_end = d.char_end;
  page_number = d.page_number;
  model = p.model;
  dimension = p.dimension;
}

abbrev pub chunk_passage : Option SourceChunk → Option Passage
chunk_passage none = none
chunk_passage (some c) = some (passage_of_chunk c)

abbrev pub draft_passage : Provider → Option ChunkDraft → Option Passage
draft_passage p none = none
draft_passage p (some d) = some (passage_of_draft p d)

-- The passage stored under an index, and the one the text has there.
abbrev pub stored_passage : ℕ → ℕ → List SourceChunk → Option Passage
stored_passage source_id i chunks = chunk_passage (find (is_chunk source_id i) chunks)

abbrev pub drafted_passage : Provider → ℕ → List ChunkDraft → Option Passage
drafted_passage p i drafts = draft_passage p (find (has_index i) drafts)

pub stored_passage-append :
    (source_id i : ℕ) (xs ys : List SourceChunk)
    → stored_passage source_id i (xs ++ ys)
      ≡ first_of (stored_passage source_id i xs) (stored_passage source_id i ys)
stored_passage-append source_id i xs ys = ground (arith, find-append (is_chunk source_id i) xs ys)

pub drafted_passage-append :
    (p : Provider) (i : ℕ) (xs ys : List ChunkDraft)
    → drafted_passage p i (xs ++ ys) ≡ first_of (drafted_passage p i xs) (drafted_passage p i ys)
drafted_passage-append p i xs ys = ground (arith, find-append (has_index i) xs ys)

pub new_chunks-passage :
    (p : Provider) (source_id workspace_id i : ℕ) (texts : List Text) (vectors : List Vector)
    (ds : List ChunkDraft) (rows : List SourceChunk)
    → new_chunks p source_id workspace_id texts vectors ds ≡ some rows
    → stored_passage source_id i rows ≡ drafted_passage p i ds
unfolding new_chunks
new_chunks-passage p source_id workspace_id i texts vectors [] rows h = ground arith
new_chunks-passage p source_id workspace_id i texts vectors (d ∷ ds) rows h =
    elim (Option-cases (vector_of texts vectors d.content)) [
      | inl e ↦ absurd (ground arith)
      | inr (v, e) ↦ elim (Option-cases (new_chunks p source_id workspace_id texts vectors ds)) [
        | inl f ↦ absurd (ground arith)
        | inr (rest, f) ↦
            ground (arith, new_chunks-passage p source_id workspace_id i texts vectors ds rest f)
      ]
    ]

pub insert_chunks-append :
    (chunks rows after : List SourceChunk)
    → insert_chunks chunks rows ≡ some after
    → after ≡ chunks ++ rows
unfolding insert_chunks
insert_chunks-append chunks [] after h = ground (arith, append-nil chunks)
insert_chunks-append chunks (r ∷ rs) after h =
    ground
      (arith, insert_chunks-append (chunks ++ (r ∷ [])) rs after, append_assoc chunks (r ∷ []) rs)

pub store_batch-chunks :
    (source_id now : ℕ) (rows : List SourceChunk) (t t' : Tables)
    → store_batch source_id now rows t ≡ (t', done)
    → t'.chunks ≡ t.chunks ++ rows
unfolding store_batch
store_batch-chunks source_id now rows t t' h = elim (Option-cases (lookup source_id t.sources)) [
  | inl e ↦ absurd (ground arith)
  | inr (source, e) ↦ elim (Option-cases (insert_chunks t.chunks rows)) [
    | inl f ↦ absurd (ground arith)
    | inr (chunks, f) ↦ ground (arith, insert_chunks-append t.chunks rows chunks f)
  ]
]

-- A batch that is stored found its source in place.
pub store_after_wait :
    (deleted : Bool) (source_id now : ℕ) (rows : List SourceChunk) (t t' : Tables)
    → store_batch source_id now rows (after_wait deleted source_id t) ≡ (t', done)
    → t'.chunks ≡ t.chunks ++ rows
unfolding after_wait delete_source store_batch
store_after_wait false source_id now rows t t' h = store_batch-chunks source_id now rows t t' h
store_after_wait true source_id now rows t t' h = elim (Option-cases (lookup source_id t.sources)) [
  | inl e ↦ store_batch-chunks source_id now rows t t' (ground arith)
  | inr (source, e) ↦
      let absent : lookup source_id (erase source_id t.sources) ≡ none =
        ground (arith, lookup-erase source_id source_id t.sources) in
      absurd (ground arith)
]

pub settle-passage :
    (w : Worker) (source_id workspace_id i : ℕ) (ds : List ChunkDraft) (texts : List Text)
    (t t' : Tables) (answer : Answer)
    → settle w source_id workspace_id ds texts t answer ≡ (t', done)
    → stored_passage source_id i t'.chunks
      ≡ first_of (stored_passage source_id i t.chunks) (drafted_passage w.provider i ds)
unfolding settle
settle-passage w source_id workspace_id i ds texts t t' killed h = absurd (ground arith)
settle-passage w source_id workspace_id i ds texts t t' (refused code) h = absurd (ground arith)
settle-passage w source_id workspace_id i ds texts t t' (embedded deleted now vectors) h =
    elim (Bool-cases (length texts == length vectors)) [
      | inr e ↦ absurd (ground arith)
      | inl e ↦
          elim (Option-cases (new_chunks w.provider source_id workspace_id texts vectors ds)) [
            | inl f ↦ absurd (ground arith)
            | inr (rows, f) ↦
                let all : t'.chunks ≡ t.chunks ++ rows =
                  store_after_wait deleted source_id now rows t t' (ground arith) in
                rw all (
                  stored_passage-append source_id i t.chunks rows
                  ∙ ap (first_of (stored_passage source_id i t.chunks)) (
                      new_chunks-passage w.provider source_id workspace_id i texts vectors ds rows
                        f))
          ]
    ]

pub and_then-done :
    (r : Tables × Ended) (next : Tables → Tables × Ended) (t' : Tables)
    → and_then r next ≡ (t', done)
    → (u : Tables) × (r ≡ (u, done)) × (next u ≡ (t', done))
and_then-done (t, done) next t' h = (t, refl, h)
and_then-done (t, fails code) next t' h = absurd (ground arith)
and_then-done (t, is_gone) next t' h = absurd (ground arith)
and_then-done (t, is_killed) next t' h = absurd (ground arith)

pub embed_batches-passage :
    (w : Worker) (source_id workspace_id i : ℕ) (bs : List (List Group)) (t t' : Tables)
    → embed_batches w source_id workspace_id bs t ≡ (t', done)
    → stored_passage source_id i t'.chunks
      ≡ first_of (stored_passage source_id i t.chunks) (drafted_passage w.provider i (sent bs))
unfolding embed_batches sent embed_batch
embed_batches-passage w source_id workspace_id i [] t t' h = ground arith
embed_batches-passage w source_id workspace_id i (b ∷ bs) t t' h =
    let batch = drafts_of_batch b in
    let (u, first, rest) =
      and_then-done (embed_batch w source_id workspace_id batch t)
        (embed_batches w source_id workspace_id bs) t' h in
    let texts = from_keys (map (λ d. d.content) batch) in
    ground (
      arith,
      settle-passage w source_id workspace_id i batch texts t u (w.embed texts) first,
      embed_batches-passage w source_id workspace_id i bs u t' rest,
      drafted_passage-append w.provider i batch (sent bs),
    )
