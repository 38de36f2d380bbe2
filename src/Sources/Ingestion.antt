-- ===== src/Sources/Ingestion.antt =====
-- api/services/ingestion.py: the worker's job on one source.
use synapse_canvas.Base.{
  ℕ, ◌-◌, Bool, true, false, not, ◌&&◌, ◌||◌, Option, none, some, List, [], ◌∷◌, ltb, ◌==◌,
  if◌then◌else◌, find, keep, any, opt_eq, length, min,
}
use synapse_canvas.Base.Texts.{text_eq}
use synapse_canvas.Base.Dict.{Dict, lookup, insert}
use synapse_canvas.ProseMirror.Utf16.{Text}
use synapse_canvas.Chunking.Packing.{ChunkDraft, chunk_text}
use synapse_canvas.Sources.{
  SourceStatus, pending, processing, ready, failed, ErrorCode, server_error, ok, err, Source,
  SourceChunk, StorageKey, Tables, set_source, is_key,
}
use synapse_canvas.Sources.Batching.{
  page_count, Extracted, Worker, Ended, Outcome, batches, group_from, embed_batches, done, fails,
  is_gone, is_killed, busy, gone, reported, lost,
}

unfoldable pub store_text : ℕ → Extracted → Tables → Tables
store_text source_id extracted t = record t {
  texts =
      insert source_id (record { text = extracted.text; page_starts = extracted.page_starts })
        t.texts;
}

-- `wanted.get(index) == tuple(identity)`
unfoldable pub is_identical : Worker → SourceChunk → ChunkDraft → Bool
unfolding text_eq
is_identical w c d =
    text_eq (w.digest d.content) (w.digest c.content)
    && (d.char_start == c.char_start)
    && (d.char_end == c.char_end)
    && opt_eq d.page_number c.page_number
    && (w.provider.model == c.embedding_model)
    && (w.provider.dimension == c.embedding_dimension)

abbrev pub has_index : ℕ → ChunkDraft → Bool
has_index index d = d.index == index

unfoldable pub is_reusable : Worker → ℕ → List ChunkDraft → SourceChunk → Bool
unfolding is_identical
is_reusable w source_id drafts c =
    (c.source_id == source_id)
    && elim (find (has_index c.chunk_index) drafts) [ none ↦ false | some d ↦ is_identical w c d ]

-- The chunks that stay, and the drafts still to embed.
unfoldable pub keep_reusable :
    Worker → ℕ → List ChunkDraft → List SourceChunk → List SourceChunk × List ChunkDraft
unfolding is_reusable
keep_reusable w source_id drafts chunks =
    let kept = keep (is_reusable w source_id drafts) chunks in
    (
      keep (λ c. not (c.source_id == source_id) || is_reusable w source_id drafts c) chunks,
      keep (λ d. not (any (λ c. c.chunk_index == d.index) kept)) drafts,
    )

abbrev pub is_processing : SourceStatus → Bool
is_processing processing = true
is_processing _ = false

abbrev pub or_else {ℓ} : {A : Type ℓ} → Option A → A → A
or_else none old = old
or_else (some new) old = new

abbrev pub finished : ℕ → SourceStatus → Option ErrorCode → Option ℕ → Option ℕ → Source → Source
finished now status error_code chunk_count page_count s =
    if is_processing s.status
    then (record s {
      status = status;
      error_code = error_code;
      processed_at = some now;
      updated_at = now;
      chunk_count = or_else chunk_count s.chunk_count;
      page_count = elim page_count [ none ↦ s.page_count | some n ↦ some n ];
    })
    else s

unfoldable pub finish_source :
    Worker → ℕ → SourceStatus → Option ErrorCode → Option ℕ → Option ℕ → Tables → Tables × Outcome
unfolding set_source
finish_source w source_id status error_code chunk_count page_count t = (
  record t {
    sources =
        set_source source_id (finished w.finished_at status error_code chunk_count page_count)
          t.sources;
  },
  reported status error_code,
)

unfoldable pub drafts_for : Worker → Extracted → List ChunkDraft
unfolding chunk_text
drafts_for w extracted =
    chunk_text extracted.text extracted.page_starts w.provider.count_tokens
      w.settings.chunk_target_tokens w.settings.chunk_overlap_tokens
      (min w.settings.chunk_max_tokens w.provider.max_input_tokens)

-- The work from the drafts on: chunks reused, the missing ones embedded in batches.
unfoldable pub embed_missing : Worker → ℕ → ℕ → List ChunkDraft → Tables → Tables × Ended
unfolding keep_reusable group_from batches embed_batches
embed_missing w source_id workspace_id drafts t =
    let (chunks, missing) = keep_reusable w source_id drafts t.chunks in
    let by_content = group_from [] missing in
    embed_batches w source_id workspace_id
      (batches (length by_content) w.settings.embedding_batch_size by_content)
      (record t { chunks = chunks })

unfoldable pub conclude : Worker → ℕ → ℕ → Option ℕ → Tables × Ended → Tables × Outcome
unfolding finish_source
conclude w source_id count page_count (t, done) =
    finish_source w source_id ready none (some count) page_count t
conclude w source_id count page_count (t, fails code) =
    finish_source w source_id failed (some code) none none t
conclude w source_id count page_count (t, is_gone) = (t, gone)
conclude w source_id count page_count (t, is_killed) = (t, lost)

unfoldable pub read_file : StorageKey → List (StorageKey × Text) → Option Text
read_file key files = elim (find (is_key key) files) [ none ↦ none | some file ↦ some file.1 ]

unfoldable pub work : Worker → ℕ → Source → Tables → Tables × Outcome
unfolding read_file store_text drafts_for embed_missing finish_source conclude
work w source_id source t = elim (read_file source.storage_path t.files) [
  | none ↦ finish_source w source_id failed (some server_error) none none t
  | some bytes ↦ elim (w.extract bytes source.content_type) [
    | err code ↦ finish_source w source_id failed (some code) none none t
    | ok extracted ↦
        let drafts = drafts_for w extracted in
        conclude w source_id (length drafts) (page_count extracted)
          (embed_missing w source_id source.workspace_id drafts (store_text source_id extracted t))
  ]
]

abbrev pub is_ended : SourceStatus → Bool
is_ended ready = true
is_ended failed = true
is_ended _ = false

abbrev pub begun : ℕ → Source → Source
begun now s = record s { status = processing; error_code = none; updated_at = now }

-- `_process`
unfoldable pub process : Worker → ℕ → Tables → Tables × Outcome
unfolding set_source work
process w source_id t = elim (lookup source_id t.sources) [
  | none ↦ (t, gone)
  | some source ↦
      if is_ended source.status
      then (t, reported source.status none)
      else work w source_id source
          (record t { sources = set_source source_id (begun w.started_at) t.sources })
]

-- Under the advisory lock of the source; `locked` tells that another run holds it.
unfoldable pub process_source : Bool → Worker → ℕ → Tables → Tables × Outcome
unfolding process
process_source true w source_id t = (t, busy)
process_source false w source_id t = process w source_id t

-- The sources to queue again.
unfoldable pub stalled_sources : ℕ → ℕ → ℕ → Dict Source → List ℕ
stalled_sources now pending_for processing_for [] = []
stalled_sources now pending_for processing_for (row ∷ rows) =
    let rest = stalled_sources now pending_for processing_for rows in
    elim row.1.status [
      | pending ↦ if ltb row.1.updated_at (now - pending_for) then row.0 ∷ rest else rest
      | processing ↦ if ltb row.1.updated_at (now - processing_for) then row.0 ∷ rest else rest
      | _ ↦ rest
    ]
