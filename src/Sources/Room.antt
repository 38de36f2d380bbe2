-- ===== src/Sources/Room.antt =====
-- api/services/ingestion.py: the room that the kept passages leave for the drafts.
use synapse_canvas.Base.{
  ℕ, ◌+◌, ◌≤◌, ◌≡◌, refl, ap, Bool, true, false, not, ◌||◌, List, [], ◌∷◌, ◌==◌, keep, any,
  count_if, arith, Bool-cases, inl, inr,
}
use synapse_canvas.Base.Counts.{count_if-keep}
use synapse_canvas.Chunking.Packing.{ChunkDraft}
use synapse_canvas.Sources.{SourceChunk}
use synapse_canvas.Sources.Ingestion.{has_index, is_reusable, keep_reusable}
use synapse_canvas.Sources.Batching.{Worker, is_chunk}
use synapse_canvas.Sources.Grouping.{Distinct}
use synapse_canvas.Sources.Progress.{Unique}

-- The table of chunks has room for the drafts.
abbrev pub HasRoom : ℕ → List SourceChunk → List ChunkDraft → Type 0
HasRoom source_id chunks ds =
    (i : ℕ) → count_if (is_chunk source_id i) chunks + count_if (has_index i) ds ≤ 1

dropped_none :
    (w : Worker) (source_id i : ℕ) (drafts : List ChunkDraft) (chunks : List SourceChunk)
    → any (λ c. c.chunk_index == i) (keep (is_reusable w source_id drafts) chunks) ≡ false
    → count_if
        (is_chunk source_id i)
        (keep (λ c. not (c.source_id == source_id) || is_reusable w source_id drafts c) chunks)
      ≡ 0
dropped_none w source_id i drafts [] h = refl
dropped_none w source_id i drafts (c ∷ cs) h = ground (arith, dropped_none w source_id i drafts cs)

count_if-keep_none :
    (i : ℕ) (p : ChunkDraft → Bool) (ds : List ChunkDraft)
    → ((d : ChunkDraft) → (d.index == i) ≡ true → p d ≡ false)
    → count_if (has_index i) (keep p ds) ≡ 0
count_if-keep_none i p [] h = refl
count_if-keep_none i p (d ∷ ds) h = ground (arith, count_if-keep_none i p ds h, h d)

pub keep_reusable-Room :
    (w : Worker) (source_id : ℕ) (drafts : List ChunkDraft) (chunks : List SourceChunk)
    → Unique chunks
    → Distinct drafts
    → HasRoom source_id
        (keep_reusable w source_id drafts chunks).0
        (keep_reusable w source_id drafts chunks).1
unfolding keep_reusable
keep_reusable-Room w source_id drafts chunks unique distinct i =
    let kept = keep (is_reusable w source_id drafts) chunks in
    let found = λ (j : ℕ). any (λ c. c.chunk_index == j) kept in
    elim (Bool-cases (found i)) [
      | inl e ↦ omega (
        arith,
        unique source_id i,
        count_if-keep (is_chunk source_id i)
            (λ c. not (c.source_id == source_id) || is_reusable w source_id drafts c) chunks,
        count_if-keep_none i (λ d. not (found d.index)) drafts
            λ d same. ground (arith, ap found {x = d.index} {y = i}),
      )
      | inr e ↦ omega (
        arith,
        distinct i,
        dropped_none w source_id i drafts chunks e,
        count_if-keep (has_index i) (λ d. not (found d.index)) drafts,
      )
    ]

pub keep_reusable-Unique :
    (w : Worker) (source_id : ℕ) (drafts : List ChunkDraft) (chunks : List SourceChunk)
    → Unique chunks
    → Unique (keep_reusable w source_id drafts chunks).0
unfolding keep_reusable
keep_reusable-Unique w source_id drafts chunks unique s i = omega (
  arith,
  unique s i,
  count_if-keep (is_chunk s i)
      (λ c. not (c.source_id == source_id) || is_reusable w source_id drafts c) chunks,
)
