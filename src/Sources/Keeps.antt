-- ===== src/Sources/Keeps.antt =====
-- api/services/ingestion.py: what a run does to stored bytes and to the unique key of passages.
use synapse_canvas.Base.{
  ℕ, refl, not, ◌||◌, Option, none, some, List, [], ◌∷◌, ◌==◌, length, arith, Bool-cases,
  Option-cases, inl, inr, map,
}
use synapse_canvas.Base.Counts.{count_if-keep}
use synapse_canvas.Base.Dict.{lookup}
use synapse_canvas.ProseMirror.Utf16.{Text}
use synapse_canvas.Chunking.Packing.{ChunkDraft}
use synapse_canvas.Sources.{
  Source, Tables, set_source, ErrorCode, server_error, SourceStatus, failed, ready,
}
use synapse_canvas.Sources.Ingestion.{
  keep_reusable, is_reusable, embed_missing, finish_source, finished, conclude, store_text,
  read_file, drafts_for, work, begun, is_ended, process,
}
use synapse_canvas.Sources.Batching.{
  page_count, Worker, Ended, done, fails, is_gone, is_killed, Answer, embedded, refused, killed,
  Group, batches, group_from, drafts_of_batch, is_chunk, new_chunks, store_batch, after_wait,
  settle, and_then, from_keys, embed_batch, embed_batches,
}
use synapse_canvas.Sources.Stored.{Result-cases}
use synapse_canvas.Sources.Bytes.{
  Keeps, Keeps-refl, Keeps-trans, Same, set_source-Keeps, after_wait-Keeps, store_batch-Keeps,
}

settle-Keeps :
    (w : Worker) (source_id workspace_id : ℕ) (ds : List ChunkDraft) (texts : List Text)
    (t : Tables) (answer : Answer)
    → Keeps t (settle w source_id workspace_id ds texts t answer).0
unfolding settle
settle-Keeps w source_id workspace_id ds texts t killed = Keeps-refl t
settle-Keeps w source_id workspace_id ds texts t (refused code) = Keeps-refl t
settle-Keeps w source_id workspace_id ds texts t (embedded deleted now vectors) =
    let waited = after_wait-Keeps deleted source_id t in
    elim (Bool-cases (length texts == length vectors)) [
      | inr e ↦ rw e waited
      | inl e ↦
          elim (Option-cases (new_chunks w.provider source_id workspace_id texts vectors ds)) [
            | inl f ↦ rw (e, f) waited
            | inr (rows, f) ↦
                rw (e, f)
                  (Keeps-trans t (after_wait deleted source_id t)
                    (store_batch source_id now rows (after_wait deleted source_id t)).0 waited
                    (store_batch-Keeps source_id now rows (after_wait deleted source_id t)))
          ]
    ]

and_then-Keeps :
    (t : Tables) (r : Tables × Ended) (next : Tables → Tables × Ended)
    → Keeps t r.0
    → ((u : Tables) → Keeps u (next u).0)
    → Keeps t (and_then r next).0
and_then-Keeps t (u, done) next h all = Keeps-trans t u (next u).0 h (all u)
and_then-Keeps t (u, fails code) next h all = h
and_then-Keeps t (u, is_gone) next h all = h
and_then-Keeps t (u, is_killed) next h all = h

abbrev texts_of : List Group → List Text
texts_of b = from_keys (map (λ d. d.content) (drafts_of_batch b))

embed_batches-Keeps :
    (w : Worker) (source_id workspace_id : ℕ) (bs : List (List Group)) (t : Tables)
    → Keeps t (embed_batches w source_id workspace_id bs t).0
unfolding embed_batches embed_batch
embed_batches-Keeps w source_id workspace_id [] t = Keeps-refl t
embed_batches-Keeps w source_id workspace_id (b ∷ bs) t =
    and_then-Keeps t (embed_batch w source_id workspace_id (drafts_of_batch b) t)
      (embed_batches w source_id workspace_id bs)
      (settle-Keeps w source_id workspace_id (drafts_of_batch b) (texts_of b) t
        (w.embed (texts_of b)))
      (embed_batches-Keeps w source_id workspace_id bs)

embed_missing-Keeps :
    (w : Worker) (source_id workspace_id : ℕ) (drafts : List ChunkDraft) (t : Tables)
    → Keeps t (embed_missing w source_id workspace_id drafts t).0
unfolding embed_missing keep_reusable
embed_missing-Keeps w source_id workspace_id drafts t =
    let chunks = (keep_reusable w source_id drafts t.chunks).0 in
    let groups = group_from [] (keep_reusable w source_id drafts t.chunks).1 in
    let all = batches (length groups) w.settings.embedding_batch_size groups in
    let u = record t { chunks = chunks } in
    Keeps-trans t u (embed_batches w source_id workspace_id all u).0
      (
        λ s. omega arith,
        λ s c. omega arith,
        λ unique s i. omega (
          arith,
          unique s i,
          count_if-keep (is_chunk s i)
              (λ c. not (c.source_id == source_id) || is_reusable w source_id drafts c) t.chunks,
        ),
      )
      (embed_batches-Keeps w source_id workspace_id all u)

finished-Same :
    (now : ℕ) (status : SourceStatus) (code : Option ErrorCode) (count pages : Option ℕ)
    → Same (finished now status code count pages)
finished-Same now status code count pages s = ground arith

module _ (w : Worker) (source_id : ℕ) where
  finish_source-Keeps :
      (status : SourceStatus) (code : Option ErrorCode) (count pages : Option ℕ) (t : Tables)
      → Keeps t (finish_source w source_id status code count pages t).0
  unfolding finish_source
  finish_source-Keeps status code count pages t =
      set_source-Keeps t source_id (finished w.finished_at status code count pages)
        (finished-Same w.finished_at status code count pages)

  conclude-Keeps :
      (count : ℕ) (pages : Option ℕ) (t : Tables) (r : Tables × Ended)
      → Keeps t r.0
      → Keeps t (conclude w source_id count pages r).0
  unfolding conclude
  conclude-Keeps count pages t (u, done) h =
      Keeps-trans t u (finish_source w source_id ready none (some count) pages u).0 h
        (finish_source-Keeps ready none (some count) pages u)
  conclude-Keeps count pages t (u, fails code) h =
      Keeps-trans t u (finish_source w source_id failed (some code) none none u).0 h
        (finish_source-Keeps failed (some code) none none u)
  conclude-Keeps count pages t (u, is_gone) h = h
  conclude-Keeps count pages t (u, is_killed) h = h

  work-Keeps : (source : Source) (t : Tables) → Keeps t (work w source_id source t).0
  unfolding work store_text
  work-Keeps source t = elim (Option-cases (read_file source.storage_path t.files)) [
    | inl e ↦ rw (e, work) (finish_source-Keeps failed (some server_error) none none t)
    | inr (bytes, e) ↦ elim (Result-cases (w.extract bytes source.content_type)) [
      | inl (code, f) ↦ rw (e, work) (rw f (finish_source-Keeps failed (some code) none none t))
      | inr (extracted, f) ↦
          let drafts = drafts_for w extracted in
          rw (e, work)
            (rw f (
              conclude-Keeps (length drafts) (page_count extracted) t
                (embed_missing w source_id source.workspace_id drafts
                  (store_text source_id extracted t))
                (embed_missing-Keeps w source_id source.workspace_id drafts
                  (store_text source_id extracted t))))
    ]
  ]

  pub process-Keeps : (t : Tables) → Keeps t (process w source_id t).0
  unfolding process
  process-Keeps t = elim (Option-cases (lookup source_id t.sources)) [
    | inl e ↦ rw (e, process) (Keeps-refl t)
    | inr (source, e) ↦ elim (Bool-cases (is_ended source.status)) [
      | inl f ↦ rw (e, process) (rw f (Keeps-refl t))
      | inr f ↦
          let u = record t { sources = set_source source_id (begun w.started_at) t.sources } in
          rw (e, process)
            (rw f (
              Keeps-trans t u (work w source_id source u).0
                (set_source-Keeps t source_id (begun w.started_at) (λ s. (refl, refl, refl)))
                (work-Keeps source u)))
    ]
  ]
