-- ===== src/Chunking/Coverage.antt =====
-- api/services/chunking.py: which passages hold a unit.
use synapse_canvas.Base.{
  ℕ, zero, suc, ◌+◌, ◌-◌, ◌/◌, ◌≤◌, ◌<◌, ◌≡◌, min, refl, ap, ◌∙◌, List, [], ◌∷◌, ◌++◌, arith, Bool,
  true, ◌&&◌, ◌||◌, leb, ltb, length, take, drop, inl, inr, Bool-cases, any, length-take,
  length-drop, some, get_elem?,
}
use synapse_canvas.ProseMirror.Utf16.{Text}
use synapse_canvas.Chunking.{TextUnit, units_of_text}
use synapse_canvas.Chunking.Units.{FitsAll, units_of_text-FitsAll}
use synapse_canvas.Chunking.Passages.{FitsAll-take, FitsAll-drop, last_stop-bounds}
use synapse_canvas.Chunking.Packing.{
  ChunkDraft, last_stop, draft_of, verified, enumerate_from, units_between, drafts_of, spans_from,
  chunk_text, tokens_at, step_back, more_units,
}

-- Some passage has the unit between its offsets.
abbrev pub covers : TextUnit → ChunkDraft → Bool
covers u d = leb d.char_start u.start && leb u.stop d.char_end

any-append :
    {A : Type 0} (p : A → Bool) (xs ys : List A) → any p (xs ++ ys) ≡ (any p xs || any p ys)
any-append p [] ys = refl
any-append p (x ∷ xs) ys = ground (arith, any-append p xs ys)

get_elem?-take :
    {A : Type 0} (n i : ℕ) (xs : List A) → i < n → get_elem? (take n xs) i ≡ get_elem? xs i
get_elem?-take zero i xs h = absurd (omega arith)
get_elem?-take (suc n) i [] h = refl
get_elem?-take (suc n) zero (x ∷ xs) h = refl
get_elem?-take (suc n) (suc i) (x ∷ xs) h = get_elem?-take n i xs (omega arith)

get_elem?-drop :
    {A : Type 0} (n i j : ℕ) (xs : List A) → j ≡ n + i → get_elem? (drop n xs) i ≡ get_elem? xs j
get_elem?-drop zero i j xs h = let same : i ≡ j = omega arith in ap (get_elem? xs) same
get_elem?-drop (suc n) i j [] h = refl
get_elem?-drop (suc n) i zero (x ∷ xs) h = absurd (omega arith)
get_elem?-drop (suc n) i (suc j) (x ∷ xs) h = get_elem?-drop n i j xs (omega arith)

get_elem?-lt : {A : Type 0} (xs : List A) (i : ℕ) (x : A) → get_elem? xs i ≡ some x → i < length xs
get_elem?-lt [] i x h = cc
get_elem?-lt (y ∷ ys) zero x h = omega arith
get_elem?-lt (y ∷ ys) (suc i) x h = omega (arith, get_elem?-lt ys i x h)

module _ (count : Text → ℕ) (limit : ℕ) (text : Text) where
  between :
      (low : ℕ) (u : TextUnit) (us : List TextUnit) (high i : ℕ) (v : TextUnit)
      → FitsAll count limit text low (u ∷ us) high
      → get_elem? (u ∷ us) i ≡ some v
      → (u.start ≤ v.start) × (v.stop ≤ last_stop u us)
  between low u us high zero v h at =
      let bounds = last_stop-bounds count limit text low u us high h in ground arith
  between low u [] high (suc i) v h at = cc
  between low u (w ∷ ws) high (suc i) v (a, b, g, c) at =
      let (d, e, f, rest) = c in omega (arith, between u.stop w ws high i v c at)

  verified-covers :
      (max_tokens : ℕ) (page_starts : List ℕ) (fuel low : ℕ) (us : List TextUnit) (high i : ℕ)
      (v : TextUnit)
      → length us ≤ fuel
      → FitsAll count limit text low us high
      → get_elem? us i ≡ some v
      → any (covers v) (verified count max_tokens text page_starts fuel us) ≡ true
  unfolding verified draft_of
  verified-covers max_tokens page_starts fuel low [] high i v le h at = cc
  verified-covers max_tokens page_starts zero low (u ∷ us) high i v le h at = absurd (omega arith)
  verified-covers max_tokens page_starts (suc fuel) low (u ∷ us) high i v le h at =
      let half = length (u ∷ us) / 2 in
      let draft = draft_of count text page_starts u us in
      let left = verified count max_tokens text page_starts fuel (take half (u ∷ us)) in
      let right = verified count max_tokens text page_starts fuel (drop half (u ∷ us)) in
      elim (Bool-cases (ltb max_tokens draft.token_count && ltb 1 (length (u ∷ us)))) [
        | inr e ↦ rw e (ground (arith, between low u us high i v h at))
        | inl e ↦
            let several : 1 < length (u ∷ us) = ground arith in
            rw e (
              any-append (covers v) left right ∙ elim (Bool-cases (ltb i half)) [
                | inl l ↦ ground (
                  arith,
                  verified-covers max_tokens page_starts fuel low (take half (u ∷ us)) high i v
                      (omega (arith, length-take half (u ∷ us)))
                      (FitsAll-take count limit text half low (u ∷ us) high h)
                      (get_elem?-take half i (u ∷ us) (ground arith) ∙ at),
                )
                | inr r ↦ ground (
                  arith,
                  verified-covers max_tokens page_starts fuel low (drop half (u ∷ us)) high
                      (i - half) v (omega (arith, length-drop half (u ∷ us)))
                      (FitsAll-drop count limit text half low (u ∷ us) high h)
                      (get_elem?-drop half (i - half) i (u ∷ us) (ground arith) ∙ at),
                )
              ])
      ]

abbrev pub in_span : ℕ → ℕ × ℕ → Bool
in_span i span = leb span.0 i && leb i span.1

step_back-bounds :
    (units : List TextUnit) (overlap first left carried : ℕ)
    → (first + 1 ≤ step_back units overlap first left carried)
      × (step_back units overlap first left carried ≤ first + 1 + left)
unfolding step_back
step_back-bounds units overlap first zero carried = (omega arith, omega arith)
step_back-bounds units overlap first (suc left) carried =
    let more = carried + tokens_at units (first + suc left) in
    ground (arith, step_back-bounds units overlap first left more)

spans_from-covers :
    (units : List TextUnit) (target overlap fuel first i : ℕ)
    → first ≤ i
    → i < length units
    → length units ≤ first + fuel
    → any (in_span i) (spans_from units target overlap fuel first) ≡ true
unfolding spans_from
spans_from-covers units target overlap zero first i a b enough = absurd (omega arith)
spans_from-covers units target overlap (suc fuel) first i a b enough =
    let extra = more_units target (tokens_at units first) (drop (first + 1) units) in
    let following = step_back units overlap first extra 0 in
    let bounds = step_back-bounds units overlap first extra 0 in
    elim (Bool-cases (leb i (first + extra))) [
      | inl inside ↦ ground arith
      | inr outside ↦ ground (
        arith,
        spans_from-covers units target overlap fuel following i (ground arith) b
            (omega (arith, bounds)),
      )
    ]

drafts_of-covers :
    (count : Text → ℕ) (limit : ℕ) (text : Text) (max_tokens : ℕ) (page_starts : List ℕ)
    (us : List TextUnit) (spans : List (ℕ × ℕ)) (high i : ℕ) (v : TextUnit)
    → FitsAll count limit text 0 us high
    → get_elem? us i ≡ some v
    → any (in_span i) spans ≡ true
    → any (covers v) (drafts_of count max_tokens text page_starts us spans) ≡ true
unfolding drafts_of
drafts_of-covers count limit text max_tokens page_starts us [] high i v h at inside = cc
drafts_of-covers count limit text max_tokens page_starts us (span ∷ spans) high i v h at inside =
    let chosen = units_between us span in
    let drafts = verified count max_tokens text page_starts (length chosen) chosen in
    let rest = drafts_of count max_tokens text page_starts us spans in
    any-append (covers v) drafts rest ∙ elim (Bool-cases (in_span i span)) [
      | inr out ↦
          ground
            (arith, drafts_of-covers count limit text max_tokens page_starts us spans high i v h at)
      | inl within ↦ ground (
        arith,
        verified-covers count limit text max_tokens page_starts (length chosen) 0 chosen high
            (i - span.0) v (omega arith)
            (FitsAll-take count limit text (span.1 + 1 - span.0) 0 (drop span.0 us) high
              (FitsAll-drop count limit text span.0 0 us high h))
            (get_elem?-take (span.1 + 1 - span.0) (i - span.0) (drop span.0 us) (ground arith)
              ∙ (get_elem?-drop span.0 (i - span.0) i us (ground arith) ∙ at)),
      )
    ]

enumerate_from-covers :
    (v : TextUnit) (index : ℕ) (ds : List ChunkDraft)
    → any (covers v) (enumerate_from index ds) ≡ any (covers v) ds
enumerate_from-covers v index [] = refl
enumerate_from-covers v index (d ∷ ds) = ground (arith, enumerate_from-covers v (index + 1) ds)

-- Packing loses nothing: each unit that the text is cut into lies within the offsets of some
-- passage of `chunk_text`, whatever the tokenizer and the settings are.
pub chunk_text-covers :
    (text : Text) (page_starts : List ℕ) (count : Text → ℕ)
    (target_tokens overlap_tokens max_tokens i : ℕ) (v : TextUnit)
    → get_elem? (units_of_text count (min target_tokens max_tokens) text) i ≡ some v
    → any (covers v) (chunk_text text page_starts count target_tokens overlap_tokens max_tokens)
      ≡ true
unfolding chunk_text
chunk_text-covers text page_starts count target_tokens overlap_tokens max_tokens i v at =
    let target = min target_tokens max_tokens in
    let units = units_of_text count target text in
    let spans = spans_from units target overlap_tokens (length units) 0 in
    enumerate_from-covers v 0 (drafts_of count max_tokens text page_starts units spans)
    ∙ drafts_of-covers count target text max_tokens page_starts units spans (length text) i v
        (units_of_text-FitsAll count target text) at
        (spans_from-covers units target overlap_tokens (length units) 0 i (omega arith)
          (get_elem?-lt units i v at) (omega arith))
