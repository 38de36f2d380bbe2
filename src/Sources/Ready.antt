-- ===== src/Sources/Ready.antt =====
-- api/services/ingestion.py: how a run ends whose batches are all answered.
use synapse_canvas.Base.{
  ℕ, ◌+◌, ◌<◌, ◌≡◌, refl, ap, ◌∙◌, true, false, Option, none, some, List, [], ◌∷◌, ◌==◌,
  if◌then◌else◌, count_if, length, arith, map, All,
}
use synapse_canvas.Base.Counts.{count_if-append}
use synapse_canvas.Base.Dict.{Dict, lookup}
use synapse_canvas.ProseMirror.Utf16.{Text}
use synapse_canvas.Chunking.Packing.{ChunkDraft}
use synapse_canvas.Sources.{Source, ready, processing, Tables, Vector, ok, set_source}
use synapse_canvas.Sources.Ingestion.{
  has_index, keep_reusable, embed_missing, process, work, conclude, finish_source, drafts_for,
  store_text, read_file, begun, is_ended, finished,
}
use synapse_canvas.Sources.Batching.{
  page_count, Worker, Extracted, done, reported, embedded, batches, Group, group_from,
  drafts_of_batch, is_chunk, store_batch, after_wait, embed_batch, embed_batches, settle, from_keys,
  touch,
}
use synapse_canvas.Sources.Grouping.{sent, sent-batches, count_if-group_from, Distinct}
use synapse_canvas.Sources.Progress.{
  Unique, insert_chunks-Unique, insert_chunks-fits, has_text, has_text-from_keys, new_chunks-total,
  new_chunks-count, contents_there,
}
use synapse_canvas.Sources.Stored.{drafts_for-Distinct}
use synapse_canvas.Sources.Sending.{insert_chunks-append}
use synapse_canvas.Sources.Room.{HasRoom, keep_reusable-Room, keep_reusable-Unique}

-- Every batch of texts gets as many vectors, and the source stays.
unfoldable pub AnswersAll : Worker → Type 0
AnswersAll w =
    (texts : List Text)
    → (now : ℕ) × (vectors : List Vector) × (w.embed texts ≡ embedded false now vectors)
      × (length texts ≡ length vectors)

abbrev pub lookup_with : Option Source → (Source → Source) → Option Source
lookup_with none f = none
lookup_with (some s) f = some (f s)

pub lookup-set_source :
    (k key : ℕ) (f : Source → Source) (rows : Dict Source)
    → lookup k (set_source key f rows)
      ≡ (if key == k then lookup_with (lookup k rows) f else lookup k rows)
unfolding set_source
lookup-set_source k key f [] = ground arith
lookup-set_source k key f (row ∷ rows) = ground (arith, lookup-set_source k key f rows)

-- The row of the source while it is worked on.
abbrev IsHeld : ℕ → Tables → Type 0
IsHeld source_id t =
    (row : Source) × (lookup source_id t.sources ≡ some row) × (row.status ≡ processing)

held_touched :
    (source_id now : ℕ) (t : Tables) (row : Source)
    → lookup source_id t.sources ≡ some row
    → lookup source_id (set_source source_id (touch now) t.sources) ≡ some (touch now row)
held_touched source_id now t row at =
    ground (arith, lookup-set_source source_id source_id (touch now) t.sources)

module _ (w : Worker) (source_id workspace_id : ℕ) where
  settle-done :
      (ds : List ChunkDraft) (texts : List Text) (now : ℕ) (vectors : List Vector) (t : Tables)
      → length texts ≡ length vectors
      → All (λ d. has_text d.content texts ≡ true) ds
      → IsHeld source_id t
      → Unique t.chunks
      → HasRoom source_id t.chunks ds
      → (t' : Tables) × (settle w source_id workspace_id ds texts t (embedded false now vectors)
          ≡ (t', done))
        × IsHeld source_id t'
        × Unique t'.chunks
        × ((i : ℕ)
            → count_if (is_chunk source_id i) t'.chunks
              ≡ count_if (is_chunk source_id i) t.chunks + count_if (has_index i) ds)
  unfolding settle store_batch after_wait
  settle-done ds texts now vectors t same all (row, at, status) unique room =
      let (rows, made) =
        new_chunks-total w.provider source_id workspace_id texts vectors ds same all in
      let counted = λ (s : ℕ) (i : ℕ).
        new_chunks-count w.provider source_id workspace_id texts vectors ds rows s i made in
      let (after, stored) = insert_chunks-fits t.chunks rows λ s i. ground (
        arith,
        counted s i,
        unique s i,
        room i,
        ap (λ k. count_if (is_chunk k i) t.chunks) {x = source_id} {y = s},
      ) in
      (
        record t { chunks = after; sources = set_source source_id (touch now) t.sources },
        ground arith,
        (touch now row, held_touched source_id now t row at, status),
        insert_chunks-Unique t.chunks rows after unique stored,
        λ i. ground (
          arith,
          ap (count_if (is_chunk source_id i)) (insert_chunks-append t.chunks rows after stored),
          count_if-append (is_chunk source_id i) t.chunks rows,
          counted source_id i,
        ),
      )

  embed_batches-done :
      (bs : List (List Group)) (t : Tables)
      → AnswersAll w
      → IsHeld source_id t
      → Unique t.chunks
      → HasRoom source_id t.chunks (sent bs)
      → (t' : Tables) × (embed_batches w source_id workspace_id bs t ≡ (t', done))
        × IsHeld source_id t'
  unfolding embed_batches embed_batch sent AnswersAll
  embed_batches-done [] t answers held unique room = (t, refl, held)
  embed_batches-done (b ∷ bs) t answers held unique room =
      let ds = drafts_of_batch b in
      let texts = from_keys (map (λ d. d.content) ds) in
      let (now, vectors, answer, same) = answers texts in
      let there = contents_there ds texts λ y there. has_text-from_keys y _ ∙ there in
      let (u, first, held', unique', counts) =
        settle-done ds texts now vectors t same there held unique
          λ i. omega (arith, room i, count_if-append (has_index i) ds (sent bs)) in
      let (t', rest, last) =
        embed_batches-done bs u answers held' unique'
          λ i. omega (arith, room i, counts i, count_if-append (has_index i) ds (sent bs)) in
      (t', rw answer (rw first rest), last)

embed_missing-done :
    (w : Worker) (source_id workspace_id : ℕ) (drafts : List ChunkDraft) (t : Tables)
    → AnswersAll w
    → 0 < w.settings.embedding_batch_size
    → Distinct drafts
    → IsHeld source_id t
    → Unique t.chunks
    → (t' : Tables) × (embed_missing w source_id workspace_id drafts t ≡ (t', done))
      × IsHeld source_id t'
unfolding embed_missing
embed_missing-done w source_id workspace_id drafts t answers positive distinct held unique =
    let chunks = (keep_reusable w source_id drafts t.chunks).0 in
    let missing = (keep_reusable w source_id drafts t.chunks).1 in
    let groups = group_from [] missing in
    let all = batches (length groups) w.settings.embedding_batch_size groups in
    let order =
      sent-batches (length groups) w.settings.embedding_batch_size groups positive (omega arith) in
    embed_batches-done w source_id workspace_id all (record t { chunks = chunks }) answers held
      (keep_reusable-Unique w source_id drafts t.chunks unique)
      λ i. omega (
        arith,
        keep_reusable-Room w source_id drafts t.chunks unique distinct i,
        ap (count_if (has_index i)) order,
        count_if-group_from (has_index i) [] missing,
      )

-- A pending or processing source whose file is there and can be read, and whose batches are all
-- answered with as many vectors as texts, ends READY with the count of its passages: the run comes
-- to its end, and the unique key of passages never refuses one of its rows, whatever passages are
-- stored before it.
pub process_ends :
    (w : Worker) (source_id : ℕ) (source : Source) (bytes : Text) (e : Extracted) (t : Tables)
    → AnswersAll w
    → 0 < w.settings.embedding_batch_size
    → Unique t.chunks
    → lookup source_id t.sources ≡ some source
    → is_ended source.status ≡ false
    → read_file source.storage_path t.files ≡ some bytes
    → w.extract bytes source.content_type ≡ ok e
    → (t' : Tables) × (row : Source) × (process w source_id t ≡ (t', reported ready none))
      × (lookup source_id t'.sources ≡ some row)
      × (row.status ≡ ready)
      × (row.chunk_count ≡ length (drafts_for w e))
unfolding process work finish_source store_text conclude
process_ends w source_id source bytes e t answers positive unique at begins file text =
    let started = begun w.started_at in
    let drafts = drafts_for w e in
    let before =
      store_text source_id e (record t { sources = set_source source_id started t.sources }) in
    let first : lookup source_id before.sources ≡ some (started source) =
      ground (arith, lookup-set_source source_id source_id started t.sources) in
    let (t', run, (row, last, held)) =
      embed_missing-done w source_id source.workspace_id drafts before answers positive
        (drafts_for-Distinct w e) (started source, first, refl) unique in
    let f = finished w.finished_at ready none (some (length drafts)) (page_count e) in
    (
      record t' { sources = set_source source_id f t'.sources },
      f row,
      ground arith,
      ground (arith, lookup-set_source source_id source_id f t'.sources),
      rw held refl,
      rw held refl,
    )
