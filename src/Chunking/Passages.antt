-- ===== src/Chunking/Passages.antt =====
-- api/services/chunking.py: the passages of a text, as slices of it with their token counts.
use synapse_canvas.Base.{
  ℕ, zero, suc, ◌+◌, ◌-◌, ◌/◌, ◌≤◌, ◌<◌, ◌≡◌, ◌⊎◌, min, refl, List, [], ◌∷◌, ◌++◌, arith, false,
  ◌&&◌, ltb, length, take, drop, inl, inr, Bool-cases, All,
}
use synapse_canvas.ProseMirror.Utf16.{Text}
use synapse_canvas.Chunking.{slice, TextUnit, units_of_text}
use synapse_canvas.Chunking.Units.{FitsAll, units_of_text-FitsAll}
use synapse_canvas.Chunking.Packing.{
  ChunkDraft, last_stop, draft_of, verified, enumerate_from, units_between, drafts_of, spans_from,
  chunk_text,
}

-- A slice of the text, not empty, counted as it stands, within the cap unless it is one character.
abbrev pub IsPassage : (Text → ℕ) → ℕ → Text → ChunkDraft → Type 0
IsPassage count max_tokens text d =
    (d.char_start < d.char_end)
    × (d.char_end ≤ length text)
    × (d.content ≡ slice text d.char_start d.char_end)
    × (d.token_count ≡ count d.content)
    × ((d.token_count ≤ max_tokens) ⊎ (d.char_end ≡ d.char_start + 1))

All-append : {A : Type 0} (P : A → Type 0) (xs ys : List A) → All P xs → All P ys → All P (xs ++ ys)
All-append P [] ys h k = k
All-append P (x ∷ xs) ys (a, h) k = (a, All-append P xs ys h k)

module _ (count : Text → ℕ) (limit : ℕ) (text : Text) where
  FitsAll-low :
      (low low' : ℕ) (us : List TextUnit) (high : ℕ)
      → low' ≤ low
      → FitsAll count limit text low us high
      → FitsAll count limit text low' us high
  FitsAll-low low low' [] high l h = omega arith
  FitsAll-low low low' (u ∷ us) high l (a, b, g, c) = (omega arith, b, g, c)

  pub FitsAll-le :
      (low : ℕ) (us : List TextUnit) (high : ℕ) → FitsAll count limit text low us high → low ≤ high
  FitsAll-le low [] high h = h
  FitsAll-le low (u ∷ us) high (a, b, g, c) = omega (arith, FitsAll-le u.stop us high c)

  pub FitsAll-take :
      (n low : ℕ) (us : List TextUnit) (high : ℕ)
      → FitsAll count limit text low us high
      → FitsAll count limit text low (take n us) high
  FitsAll-take zero low us high h = FitsAll-le low us high h
  FitsAll-take (suc n) low [] high h = h
  FitsAll-take (suc n) low (u ∷ us) high (a, b, g, c) = (a, b, g, FitsAll-take n u.stop us high c)

  pub FitsAll-drop :
      (n low : ℕ) (us : List TextUnit) (high : ℕ)
      → FitsAll count limit text low us high
      → FitsAll count limit text low (drop n us) high
  FitsAll-drop zero low us high h = h
  FitsAll-drop (suc n) low [] high h = h
  FitsAll-drop (suc n) low (u ∷ us) high (a, b, g, c) =
      FitsAll-low u.stop low (drop n us) high (omega arith) (FitsAll-drop n u.stop us high c)

  pub last_stop-bounds :
      (low : ℕ) (u : TextUnit) (us : List TextUnit) (high : ℕ)
      → FitsAll count limit text low (u ∷ us) high
      → (u.stop ≤ last_stop u us) × (last_stop u us ≤ high)
  last_stop-bounds low u [] high (a, b, g, c) = (omega arith, c)
  last_stop-bounds low u (v ∷ vs) high (a, b, g, c) =
      let (x, y) = last_stop-bounds u.stop v vs high c in
      let (d, e, fits, rest) = c in (omega arith, y)

  draft_of-IsPassage :
      (max_tokens : ℕ) (page_starts : List ℕ) (low : ℕ) (u : TextUnit) (us : List TextUnit)
      → limit ≤ max_tokens
      → FitsAll count limit text low (u ∷ us) (length text)
      → (ltb max_tokens (draft_of count text page_starts u us).token_count
          && ltb 1 (length (u ∷ us)))
        ≡ false
      → IsPassage count max_tokens text (draft_of count text page_starts u us)
  unfolding draft_of
  draft_of-IsPassage max_tokens page_starts low u [] le (a, b, (same, within), c) small =
      (b, c, refl, refl, elim within [ inl fits ↦ inl (omega arith) | inr one ↦ inr one ])
  draft_of-IsPassage max_tokens page_starts low u (v ∷ vs) le h small =
      let (x, y) = last_stop-bounds low u (v ∷ vs) (length text) h in
      let (a, b, g, c) = h in (omega arith, y, refl, refl, inl (ground arith))

  verified-IsPassage :
      (max_tokens : ℕ) (page_starts : List ℕ) (fuel low : ℕ) (us : List TextUnit)
      → limit ≤ max_tokens
      → FitsAll count limit text low us (length text)
      → All (IsPassage count max_tokens text) (verified count max_tokens text page_starts fuel us)
  unfolding verified
  verified-IsPassage max_tokens page_starts zero low us le h = tt
  verified-IsPassage max_tokens page_starts (suc fuel) low [] le h = tt
  verified-IsPassage max_tokens page_starts (suc fuel) low (u ∷ us) le h =
      let half = length (u ∷ us) / 2 in
      let draft = draft_of count text page_starts u us in
      elim (Bool-cases (ltb max_tokens draft.token_count && ltb 1 (length (u ∷ us)))) [
        | inl e ↦ rw e (
            All-append _ (verified count max_tokens text page_starts fuel (take half (u ∷ us)))
              (verified count max_tokens text page_starts fuel (drop half (u ∷ us)))
              (verified-IsPassage max_tokens page_starts fuel low (take half (u ∷ us)) le
                (FitsAll-take half low (u ∷ us) (length text) h))
              (verified-IsPassage max_tokens page_starts fuel low (drop half (u ∷ us)) le
                (FitsAll-drop half low (u ∷ us) (length text) h)))
        | inr e ↦ rw e (draft_of-IsPassage max_tokens page_starts low u us le h e, tt)
      ]

  drafts_of-IsPassage :
      (max_tokens : ℕ) (page_starts : List ℕ) (us : List TextUnit) (spans : List (ℕ × ℕ))
      → limit ≤ max_tokens
      → FitsAll count limit text 0 us (length text)
      → All (IsPassage count max_tokens text) (drafts_of count max_tokens text page_starts us spans)
  unfolding drafts_of
  drafts_of-IsPassage max_tokens page_starts us [] le h = tt
  drafts_of-IsPassage max_tokens page_starts us (span ∷ spans) le h =
      let chosen = units_between us span in
      All-append _ (verified count max_tokens text page_starts (length chosen) chosen)
        (drafts_of count max_tokens text page_starts us spans)
        (verified-IsPassage max_tokens page_starts (length chosen) 0 chosen le (
          FitsAll-take (span.1 + 1 - span.0) 0 (drop span.0 us) (length text)
            (FitsAll-drop span.0 0 us (length text) h)))
        (drafts_of-IsPassage max_tokens page_starts us spans le h)

enumerate_from-IsPassage :
    (count : Text → ℕ) (max_tokens : ℕ) (text : Text) (index : ℕ) (ds : List ChunkDraft)
    → All (IsPassage count max_tokens text) ds
    → All (IsPassage count max_tokens text) (enumerate_from index ds)
enumerate_from-IsPassage count max_tokens text index [] h = tt
enumerate_from-IsPassage count max_tokens text index (d ∷ ds) (a, h) =
    (a, enumerate_from-IsPassage count max_tokens text (index + 1) ds h)

-- Whatever the tokenizer and the settings, each passage of `chunk_text` is the slice of the text
-- between its own offsets, not empty and inside the text; its token count is that of its content,
-- and at most `max_tokens` unless the passage is a single character.
pub chunk_text-IsPassage :
    (text : Text) (page_starts : List ℕ) (count : Text → ℕ)
    (target_tokens overlap_tokens max_tokens : ℕ)
    → All
        (IsPassage count max_tokens text)
        (chunk_text text page_starts count target_tokens overlap_tokens max_tokens)
unfolding chunk_text
chunk_text-IsPassage text page_starts count target_tokens overlap_tokens max_tokens =
    let target = min target_tokens max_tokens in
    let units = units_of_text count target text in
    let spans = spans_from units target overlap_tokens (length units) 0 in
    enumerate_from-IsPassage count max_tokens text 0
      (drafts_of count max_tokens text page_starts units spans)
      (drafts_of-IsPassage count target text max_tokens page_starts units spans (omega arith)
        (units_of_text-FitsAll count target text))
