-- ===== src/Sources/KeptText.antt =====
-- api/services/ingestion.py: what becomes of the text that a run stores.
use synapse_canvas.Base.{
  ℕ, ◌≡◌, ◌∙◌, Bool, true, false, none, List, [], ◌∷◌, ◌==◌, length, arith, Bool-cases,
  Option-cases, inl, inr, map,
}
use synapse_canvas.Base.Dict.{lookup, erase, lookup-erase}
use synapse_canvas.ProseMirror.Utf16.{Text}
use synapse_canvas.Chunking.Packing.{ChunkDraft}
use synapse_canvas.Sources.{SourceChunk, Tables, delete_source}
use synapse_canvas.Sources.Batching.{
  Worker, done, Answer, embedded, refused, killed, Group, drafts_of_batch, new_chunks,
  insert_chunks, store_batch, after_wait, embed_batch, embed_batches, settle, from_keys,
}
use synapse_canvas.Sources.Sending.{and_then-done}

store_batch-texts :
    (source_id now : ℕ) (rows : List SourceChunk) (t t' : Tables)
    → store_batch source_id now rows t ≡ (t', done)
    → t'.texts ≡ t.texts
unfolding store_batch
store_batch-texts source_id now rows t t' h = elim (Option-cases (lookup source_id t.sources)) [
  | inl e ↦ absurd (ground arith)
  | inr (source, e) ↦ elim (Option-cases (insert_chunks t.chunks rows)) [
    | inl f ↦ absurd (ground arith)
    | inr (chunks, f) ↦ ground arith
  ]
]

after_wait-texts :
    (deleted : Bool) (source_id now : ℕ) (rows : List SourceChunk) (t t' : Tables)
    → store_batch source_id now rows (after_wait deleted source_id t) ≡ (t', done)
    → t'.texts ≡ t.texts
unfolding after_wait delete_source store_batch
after_wait-texts false source_id now rows t t' h = store_batch-texts source_id now rows t t' h
after_wait-texts true source_id now rows t t' h = elim (Option-cases (lookup source_id t.sources)) [
  | inl e ↦ store_batch-texts source_id now rows t t' (ground arith)
  | inr (source, e) ↦
      let absent : lookup source_id (erase source_id t.sources) ≡ none =
        ground (arith, lookup-erase source_id source_id t.sources) in
      absurd (ground arith)
]

settle-texts :
    (w : Worker) (source_id workspace_id : ℕ) (ds : List ChunkDraft) (texts : List Text)
    (t t' : Tables) (answer : Answer)
    → settle w source_id workspace_id ds texts t answer ≡ (t', done)
    → t'.texts ≡ t.texts
unfolding settle
settle-texts w source_id workspace_id ds texts t t' killed h = absurd (ground arith)
settle-texts w source_id workspace_id ds texts t t' (refused code) h = absurd (ground arith)
settle-texts w source_id workspace_id ds texts t t' (embedded deleted now vectors) h =
    elim (Bool-cases (length texts == length vectors)) [
      | inr e ↦ absurd (ground arith)
      | inl e ↦
          elim (Option-cases (new_chunks w.provider source_id workspace_id texts vectors ds)) [
            | inl f ↦ absurd (ground arith)
            | inr (rows, f) ↦ after_wait-texts deleted source_id now rows t t' (ground arith)
          ]
    ]

pub embed_batches-texts :
    (w : Worker) (source_id workspace_id : ℕ) (bs : List (List Group)) (t t' : Tables)
    → embed_batches w source_id workspace_id bs t ≡ (t', done)
    → t'.texts ≡ t.texts
unfolding embed_batches embed_batch
embed_batches-texts w source_id workspace_id [] t t' h = ground arith
embed_batches-texts w source_id workspace_id (b ∷ bs) t t' h =
    let batch = drafts_of_batch b in
    let (u, first, rest) =
      and_then-done (embed_batch w source_id workspace_id batch t)
        (embed_batches w source_id workspace_id bs) t' h in
    let texts = from_keys (map (λ d. d.content) batch) in
    embed_batches-texts w source_id workspace_id bs u t' rest
    ∙ settle-texts w source_id workspace_id batch texts t u (w.embed texts) first
