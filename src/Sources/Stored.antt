-- ===== src/Sources/Stored.antt =====
-- api/services/ingestion.py: the passages and the text of a source that a run made ready.
use synapse_canvas.Base.{
  ℕ, ◌<◌, ◌≡◌, refl, ap, ◌∙◌, Bool, true, false, not, ◌||◌, Option, none, some, List, [], ◌∷◌, ◌==◌,
  if◌then◌else◌, find, keep, any, length, arith, opt_eq, is_some, Option-cases, ◌⊎◌, inl, inr,
}
use synapse_canvas.Base.Counts.{first_of, count_if-keep}
use synapse_canvas.Base.Texts.{text_eq_sound}
use synapse_canvas.Base.Dict.{lookup, lookup-insert}
use synapse_canvas.ProseMirror.Utf16.{Text}
use synapse_canvas.Chunking.Packing.{ChunkDraft, chunk_text}
use synapse_canvas.Sources.{
  Source, SourceChunk, ready, Tables, Result, ok, err, set_source, ErrorCode,
}
use synapse_canvas.Sources.Ingestion.{
  has_index, is_identical, is_reusable, keep_reusable, embed_missing, process, work, conclude,
  finish_source, drafts_for, store_text, read_file, begun, is_ended,
}
use synapse_canvas.Sources.Batching.{
  page_count, Worker, Extracted, Ended, done, fails, is_gone, is_killed, reported, batches,
  group_from,
}
use synapse_canvas.Sources.Grouping.{
  sent, sent-batches, find-group_from, Distinct, enumerate_from-Distinct,
}
use synapse_canvas.Sources.KeptText.{embed_batches-texts}
use synapse_canvas.Sources.Sending.{
  passage_of_chunk, passage_of_draft, draft_passage, stored_passage, drafted_passage,
  embed_batches-passage,
}

opt_eq_sound : (a b : Option ℕ) → opt_eq a b ≡ true → a ≡ b
opt_eq_sound none none h = refl
opt_eq_sound none (some b) h = absurd (ground arith)
opt_eq_sound (some a) none h = absurd (ground arith)
opt_eq_sound (some a) (some b) h = ground arith

-- No two texts with one digest, as SHA-256 is used.
unfoldable pub Injective : (Text → Text) → Type 0
Injective digest = (a b : Text) → digest a ≡ digest b → a ≡ b

is_identical-passage :
    (w : Worker) (c : SourceChunk) (d : ChunkDraft)
    → Injective w.digest
    → is_identical w c d ≡ true
    → passage_of_chunk c ≡ passage_of_draft w.provider d
unfolding is_identical Injective
is_identical-passage w c d inj h = ground (
  arith,
  text_eq_sound (w.digest d.content) (w.digest c.content),
  inj d.content c.content,
  opt_eq_sound d.page_number c.page_number,
)

is_reusable-passage :
    (w : Worker) (source_id : ℕ) (drafts : List ChunkDraft) (c : SourceChunk)
    → Injective w.digest
    → is_reusable w source_id drafts c ≡ true
    → ((c.source_id == source_id) ≡ true)
      × (some (passage_of_chunk c) ≡ drafted_passage w.provider c.chunk_index drafts)
unfolding is_reusable
is_reusable-passage w source_id drafts c inj h =
    elim (Option-cases (find (has_index c.chunk_index) drafts)) [
      | inl e ↦ absurd (ground arith)
      | inr (d, e) ↦ ground (arith, is_identical-passage w c d inj)
    ]

abbrev stays : Worker → ℕ → List ChunkDraft → SourceChunk → Bool
stays w source_id drafts c = not (c.source_id == source_id) || is_reusable w source_id drafts c

-- Under each index, the passage of the text was kept, or nothing was.
kept-Ends :
    (w : Worker) (source_id i : ℕ) (drafts : List ChunkDraft) (chunks : List SourceChunk)
    → Injective w.digest
    → ((any (λ c. c.chunk_index == i) (keep (is_reusable w source_id drafts) chunks) ≡ false)
        × (stored_passage source_id i (keep (stays w source_id drafts) chunks) ≡ none))
      ⊎ ((any (λ c. c.chunk_index == i) (keep (is_reusable w source_id drafts) chunks) ≡ true)
          × (stored_passage source_id i (keep (stays w source_id drafts) chunks)
              ≡ drafted_passage w.provider i drafts)
          × (is_some (drafted_passage w.provider i drafts) ≡ true))
kept-Ends w source_id i drafts [] inj = inl (refl, refl)
kept-Ends w source_id i drafts (c ∷ cs) inj = ground (
  arith,
  kept-Ends w source_id i drafts cs inj,
  is_reusable-passage w source_id drafts c inj,
  ap (λ k. drafted_passage w.provider k drafts) {x = c.chunk_index} {y = i},
)

find-keep :
    (i : ℕ) (p : ChunkDraft → Bool) (ds : List ChunkDraft) (b : Bool)
    → ((d : ChunkDraft) → (d.index == i) ≡ true → p d ≡ b)
    → find (has_index i) (keep p ds) ≡ (if b then find (has_index i) ds else none)
find-keep i p [] b h = ground arith
find-keep i p (d ∷ ds) b h = ground (arith, find-keep i p ds b h, h d)

keep_reusable-passage :
    (w : Worker) (source_id i : ℕ) (drafts : List ChunkDraft) (chunks : List SourceChunk)
    → Injective w.digest
    → first_of
        (stored_passage source_id i (keep_reusable w source_id drafts chunks).0)
        (drafted_passage w.provider i (keep_reusable w source_id drafts chunks).1)
      ≡ drafted_passage w.provider i drafts
unfolding keep_reusable
keep_reusable-passage w source_id i drafts chunks inj =
    let kept = keep (is_reusable w source_id drafts) chunks in
    let found = any (λ c. c.chunk_index == i) kept in
    let missing =
      find-keep i (λ d. not (any (λ c. c.chunk_index == d.index) kept)) drafts (not found)
        λ d same.
          ap (λ k. not (any (λ c. c.chunk_index == k) kept)) {x = d.index} {y = i} (ground arith) in
    ground (arith, kept-Ends w source_id i drafts chunks inj, missing)

pub missing-Distinct :
    (w : Worker) (source_id : ℕ) (drafts : List ChunkDraft) (chunks : List SourceChunk)
    → Distinct drafts
    → Distinct (keep_reusable w source_id drafts chunks).1
unfolding keep_reusable
missing-Distinct w source_id drafts chunks distinct j =
    let kept = keep (is_reusable w source_id drafts) chunks in
    omega (
      arith,
      count_if-keep (has_index j) (λ d. not (any (λ c. c.chunk_index == d.index) kept)) drafts,
      distinct j,
    )

embed_missing-passage :
    (w : Worker) (source_id workspace_id i : ℕ) (drafts : List ChunkDraft) (t t' : Tables)
    → Injective w.digest
    → 0 < w.settings.embedding_batch_size
    → Distinct drafts
    → embed_missing w source_id workspace_id drafts t ≡ (t', done)
    → stored_passage source_id i t'.chunks ≡ drafted_passage w.provider i drafts
unfolding embed_missing
embed_missing-passage w source_id workspace_id i drafts t t' inj positive distinct h =
    let chunks = (keep_reusable w source_id drafts t.chunks).0 in
    let missing = (keep_reusable w source_id drafts t.chunks).1 in
    let groups = group_from [] missing in
    let size = w.settings.embedding_batch_size in
    let once = missing-Distinct w source_id drafts t.chunks distinct in
    let order : find (has_index i) (sent (batches (length groups) size groups))
        ≡ find (has_index i) missing =
      ap (find (has_index i)) (sent-batches (length groups) size groups positive (omega arith))
      ∙ find-group_from i [] missing once in
    embed_batches-passage w source_id workspace_id i (batches (length groups) size groups)
      (record t { chunks = chunks }) t' h
    ∙ (ap (λ f. first_of (stored_passage source_id i chunks) (draft_passage w.provider f)) order
        ∙ keep_reusable-passage w source_id i drafts t.chunks inj)

embed_missing-texts :
    (w : Worker) (source_id workspace_id : ℕ) (drafts : List ChunkDraft) (t t' : Tables)
    → embed_missing w source_id workspace_id drafts t ≡ (t', done)
    → t'.texts ≡ t.texts
unfolding embed_missing
embed_missing-texts w source_id workspace_id drafts t t' h =
    let groups = group_from [] (keep_reusable w source_id drafts t.chunks).1 in
    embed_batches-texts w source_id workspace_id
      (batches (length groups) w.settings.embedding_batch_size groups)
      (record t { chunks = (keep_reusable w source_id drafts t.chunks).0 }) t' h

pub drafts_for-Distinct : (w : Worker) (e : Extracted) → Distinct (drafts_for w e)
unfolding drafts_for chunk_text
drafts_for-Distinct w e = enumerate_from-Distinct 0 _

conclude-ready :
    (w : Worker) (source_id count : ℕ) (pages : Option ℕ) (r : Tables × Ended) (t' : Tables)
    → conclude w source_id count pages r ≡ (t', reported ready none)
    → (u : Tables) × (r ≡ (u, done)) × (t'.chunks ≡ u.chunks) × (t'.texts ≡ u.texts)
unfolding conclude finish_source
conclude-ready w source_id count pages (t, done) t' h = (t, refl, ground arith, ground arith)
conclude-ready w source_id count pages (t, fails code) t' h = absurd (ground arith)
conclude-ready w source_id count pages (t, is_gone) t' h = absurd (ground arith)
conclude-ready w source_id count pages (t, is_killed) t' h = absurd (ground arith)

pub Result-cases :
    {A : Type 0} (r : Result A) → ((code : ErrorCode) × (r ≡ err code)) ⊎ ((a : A) × (r ≡ ok a))
Result-cases (err code) = inl (code, refl)
Result-cases (ok a) = inr (a, refl)

text_kept :
    (source_id : ℕ) (e : Extracted) (t t' u : Tables)
    → t'.texts ≡ u.texts
    → u.texts ≡ (store_text source_id e t).texts
    → lookup source_id t'.texts ≡ some (record { text = e.text; page_starts = e.page_starts })
unfolding store_text
text_kept source_id e t t' u same before =
    ap (lookup source_id) (same ∙ before)
    ∙ ground (
      arith,
      lookup-insert source_id source_id (record { text = e.text; page_starts = e.page_starts })
          t.texts,
    )

-- A run that ends in READY, on a source that was not: the file was read, its text extracted and kept
-- as the source's text, and under each index the source has exactly the passage that the text is cut into there, whatever
-- passages earlier runs left, complete, partial or of another text or model. No two passages have
-- one digest, and batches are not empty.
pub process_stores :
    (w : Worker) (source_id : ℕ) (source : Source) (t t' : Tables)
    → Injective w.digest
    → 0 < w.settings.embedding_batch_size
    → lookup source_id t.sources ≡ some source
    → is_ended source.status ≡ false
    → process w source_id t ≡ (t', reported ready none)
    → (bytes : Text) × (e : Extracted) × (read_file source.storage_path t.files ≡ some bytes)
      × (w.extract bytes source.content_type ≡ ok e)
      × (lookup source_id t'.texts ≡ some (record { text = e.text; page_starts = e.page_starts }))
      × ((i : ℕ)
          → stored_passage source_id i t'.chunks ≡ drafted_passage w.provider i (drafts_for w e))
unfolding process work finish_source store_text
process_stores w source_id source t t' inj positive at begins run =
    elim (Option-cases (read_file source.storage_path t.files)) [
      | inl e ↦ absurd (ground arith)
      | inr (bytes, e) ↦ elim (Result-cases (w.extract bytes source.content_type)) [
        | inl (code, f) ↦ absurd (ground arith)
        | inr (extracted, f) ↦
            let drafts = drafts_for w extracted in
            let first = record t {
              sources = set_source source_id (begun w.started_at) t.sources;
            } in
            let before = store_text source_id extracted first in
            let whole = embed_missing w source_id source.workspace_id drafts before in
            let (u, ended, same, same_texts) =
              conclude-ready w source_id (length drafts) (page_count extracted) whole t'
                (ground arith) in
            (
              bytes,
              extracted,
              e,
              f,
              text_kept source_id extracted first t' u same_texts
                  (embed_missing-texts w source_id source.workspace_id drafts before u ended),
              λ i.
                  ap (stored_passage source_id i) same
                  ∙ embed_missing-passage w source_id source.workspace_id i drafts before u inj
                      positive (drafts_for-Distinct w extracted) ended,
            )
      ]
    ]
