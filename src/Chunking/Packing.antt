-- ===== src/Chunking/Packing.antt =====
-- api/services/chunking.py, `chunk_text` and `_verified`: units packed into passages.
use synapse_canvas.Base.{
  ℕ, zero, suc, ◌+◌, ◌-◌, ◌/◌, min, List, [], ◌∷◌, ◌++◌, Option, none, some, ltb, leb, ◌&&◌,
  if◌then◌else◌, length, take, drop, count_if,
}
use synapse_canvas.ProseMirror.Utf16.{Text}
use synapse_canvas.Chunking.{TextUnit, slice, units_of_text}

pub record ChunkDraft : Type 0 where
  pub index : ℕ
  pub content : Text
  pub char_start : ℕ
  pub char_end : ℕ
  pub page_number : Option ℕ
  pub token_count : ℕ

-- How many of the units that follow fit beside `total`.
unfoldable pub more_units : ℕ → ℕ → List TextUnit → ℕ
more_units target total [] = 0
more_units target total (u ∷ us) =
    let rest = more_units target (total + u.tokens) us in
    if leb (total + u.tokens) target then suc rest else 0

abbrev pub tokens_at : List TextUnit → ℕ → ℕ
tokens_at [] i = 0
tokens_at (u ∷ us) zero = u.tokens
tokens_at (u ∷ us) (suc i) = tokens_at us i

-- The step back from `following = first + 1 + left`.
unfoldable pub step_back : List TextUnit → ℕ → ℕ → ℕ → ℕ → ℕ
step_back units overlap first zero carried = first + 1
step_back units overlap first (suc left) carried =
    let more = carried + tokens_at units (first + suc left) in
    let rest = step_back units overlap first left more in
    if leb more overlap then rest else first + 1 + suc left

-- The packing loop: the first and last unit of each passage; `fuel` at least the units from
-- `first` on.
unfoldable pub spans_from : List TextUnit → ℕ → ℕ → ℕ → ℕ → List (ℕ × ℕ)
unfolding more_units step_back
spans_from units target overlap zero first = []
spans_from units target overlap (suc fuel) first =
    let extra = more_units target (tokens_at units first) (drop (first + 1) units) in
    let following = step_back units overlap first extra 0 in
    let rest = spans_from units target overlap fuel following in
    if ltb first (length units)
    then (first, first + extra) ∷ (if leb (length units) (first + extra + 1) then [] else rest)
    else []

-- `bisect.bisect_right` on the ascending starts of the pages.
abbrev pub page_of : List ℕ → ℕ → Option ℕ
page_of [] start = none
page_of (p ∷ ps) start = some (count_if (λ q. leb q start) (p ∷ ps))

abbrev pub last_stop : TextUnit → List TextUnit → ℕ
last_stop u [] = u.stop
last_stop u (v ∷ vs) = last_stop v vs

unfoldable pub draft_of : (Text → ℕ) → Text → List ℕ → TextUnit → List TextUnit → ChunkDraft
unfolding slice
draft_of count text page_starts u us =
    let content = slice text u.start (last_stop u us) in
    record {
      index = 0;
      content = content;
      char_start = u.start;
      char_end = last_stop u us;
      page_number = page_of page_starts u.start;
      token_count = count content;
    }

-- `_verified`; `fuel` at least the number of units.
unfoldable pub verified : (Text → ℕ) → ℕ → Text → List ℕ → ℕ → List TextUnit → List ChunkDraft
unfolding draft_of
verified count max_tokens text page_starts zero units = []
verified count max_tokens text page_starts (suc fuel) [] = []
verified count max_tokens text page_starts (suc fuel) (u ∷ us) =
    let half = length (u ∷ us) / 2 in
    let left = verified count max_tokens text page_starts fuel (take half (u ∷ us)) in
    let right = verified count max_tokens text page_starts fuel (drop half (u ∷ us)) in
    let draft = draft_of count text page_starts u us in
    if ltb max_tokens draft.token_count && ltb 1 (length (u ∷ us))
    then left ++ right
    else draft ∷ []

abbrev pub enumerate_from : ℕ → List ChunkDraft → List ChunkDraft
enumerate_from index [] = []
enumerate_from index (d ∷ ds) = record d { index = index } ∷ enumerate_from (index + 1) ds

-- `units[first : last + 1]`
abbrev pub units_between : List TextUnit → ℕ × ℕ → List TextUnit
units_between units span = take (span.1 + 1 - span.0) (drop span.0 units)

unfoldable pub drafts_of :
    (Text → ℕ) → ℕ → Text → List ℕ → List TextUnit → List (ℕ × ℕ) → List ChunkDraft
unfolding verified
drafts_of count max_tokens text page_starts units [] = []
drafts_of count max_tokens text page_starts units (span ∷ spans) =
    let chosen = units_between units span in
    verified count max_tokens text page_starts (length chosen) chosen
    ++ drafts_of count max_tokens text page_starts units spans

unfoldable pub chunk_text : Text → List ℕ → (Text → ℕ) → ℕ → ℕ → ℕ → List ChunkDraft
unfolding units_of_text spans_from drafts_of
chunk_text text page_starts count target_tokens overlap_tokens max_tokens =
    let target = min target_tokens max_tokens in
    let units = units_of_text count target text in
    let spans = spans_from units target overlap_tokens (length units) 0 in
    enumerate_from 0 (drafts_of count max_tokens text page_starts units spans)
