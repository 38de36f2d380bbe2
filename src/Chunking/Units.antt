-- ===== src/Chunking/Units.antt =====
-- api/services/chunking.py: the units of a text, their order, counts and limit.
use synapse_canvas.Base.{
  ℕ, zero, suc, ◌+◌, ◌-◌, ◌/◌, ◌≤◌, ◌<◌, ◌≡◌, ◌⊎◌, refl, List, [], ◌∷◌, ◌++◌, arith, leb, ltb, ◌==◌,
  length, inl, inr, Bool-cases, leb→le,
}
use synapse_canvas.ProseMirror.Utf16.{Text}
use synapse_canvas.Chunking.{
  Separator, paragraph_break, sentence_end, line_break, space, slice, pieces, TextUnit, bisect, cut,
  each_piece, fit, units_of_text,
}
use synapse_canvas.Chunking.Chains.{Ordered, pieces-Ordered}

-- Counted as it stands, and within the limit unless it is a single character.
abbrev pub Fits : (Text → ℕ) → ℕ → Text → TextUnit → Type 0
Fits count limit text u =
    (u.tokens ≡ count (slice text u.start u.stop)) × ((u.tokens ≤ limit) ⊎ (u.stop ≡ u.start + 1))

-- Units that fit, none empty, in order and apart, between two positions.
abbrev pub FitsAll : (Text → ℕ) → ℕ → Text → ℕ → List TextUnit → ℕ → Type 0
FitsAll count limit text low [] high = low ≤ high
FitsAll count limit text low (u ∷ us) high =
    (low ≤ u.start)
    × (u.start < u.stop)
    × Fits count limit text u
    × FitsAll count limit text u.stop us high

module _ (count : Text → ℕ) (limit : ℕ) (text : Text) where
  FitsAll-widen :
      (low low' : ℕ) (us : List TextUnit) (high high' : ℕ)
      → low' ≤ low
      → high ≤ high'
      → FitsAll count limit text low us high
      → FitsAll count limit text low' us high'
  FitsAll-widen low low' [] high high' l r h = omega arith
  FitsAll-widen low low' (u ∷ us) high high' l r (a, b, g, c) =
      (omega arith, b, g, FitsAll-widen u.stop u.stop us high high' (omega arith) r c)

  FitsAll-append :
      (low middle high : ℕ) (us vs : List TextUnit)
      → FitsAll count limit text low us middle
      → FitsAll count limit text middle vs high
      → FitsAll count limit text low (us ++ vs) high
  FitsAll-append low middle high [] vs h k = FitsAll-widen middle low vs high high h (omega arith) k
  FitsAll-append low middle high (u ∷ us) vs (a, b, g, c) k =
      (a, b, g, FitsAll-append u.stop middle high us vs c k)

  -- What the bisection keeps of the position `x`.
  abbrev Prefix : ℕ → ℕ → Type 0
  Prefix start x = (count (slice text start x) ≤ limit) ⊎ (x ≡ start + 1)

  bisect-bounds :
      (start fuel low high : ℕ)
      → low ≤ high
      → (low ≤ bisect count limit text start fuel low high)
        × (bisect count limit text start fuel low high ≤ high)
  unfolding bisect
  bisect-bounds start zero low high h = (omega arith, h)
  bisect-bounds start (suc fuel) low high h =
      let middle = (low + high + 1) / 2 in
      ground
        (arith, bisect-bounds start fuel middle high, bisect-bounds start fuel low (middle - 1))

  bisect-Prefix :
      (start fuel low high : ℕ)
      → Prefix start low
      → Prefix start (bisect count limit text start fuel low high)
  unfolding bisect
  bisect-Prefix start zero low high h = h
  bisect-Prefix start (suc fuel) low high h =
      let middle = (low + high + 1) / 2 in
      elim (Bool-cases (ltb low high)) [
        | inr e ↦ rw e h
        | inl e ↦ elim (Bool-cases (leb (count (slice text start middle)) limit)) [
          | inl y ↦ rw e (rw y (bisect-Prefix start fuel middle high (inl (leb→le _ _ y))))
          | inr n ↦ rw e (rw n (bisect-Prefix start fuel low (middle - 1) h))
        ]
      ]

  cut-FitsAll :
      (fuel start stop : ℕ)
      → start ≤ stop
      → FitsAll count limit text start (cut count limit text fuel start stop) stop
  unfolding cut
  cut-FitsAll zero start stop h = h
  cut-FitsAll (suc fuel) start stop h =
      let gap = stop - (start + 1) in
      let low = bisect count limit text start gap (start + 1) stop in
      elim (Bool-cases (ltb start stop)) [
        | inr e ↦ rw e h
        | inl e ↦
            let within = bisect-bounds start gap (start + 1) stop (ground arith) in
            rw e (
              omega arith,
              omega (arith, within),
              (refl, bisect-Prefix start gap (start + 1) stop (inr refl)),
              cut-FitsAll fuel low stop within.1,
            )
      ]

  each_piece-FitsAll :
      (f : ℕ → ℕ → List TextUnit) (low : ℕ) (ps : List (ℕ × ℕ)) (high : ℕ)
      → ((a b : ℕ) → a < b → FitsAll count limit text a (f a b) b)
      → Ordered low ps high
      → FitsAll count limit text low (each_piece f ps) high
  each_piece-FitsAll f low [] high fits h = h
  each_piece-FitsAll f low (p ∷ ps) high fits (a, b, c) =
      FitsAll-append low p.1 high (f p.0 p.1) (each_piece f ps)
        (FitsAll-widen p.0 low (f p.0 p.1) p.1 p.1 a (omega arith) (fits p.0 p.1 b))
        (each_piece-FitsAll f p.1 ps high fits c)

  fit-FitsAll :
      (separators : List Separator) (start stop : ℕ)
      → start < stop
      → FitsAll count limit text start (fit count limit text separators start stop) stop
  unfolding fit
  fit-FitsAll [] start stop h = elim (Bool-cases (leb (count (slice text start stop)) limit)) [
    | inl y ↦ rw y (omega arith, h, (refl, inl (leb→le _ _ y)), omega arith)
    | inr n ↦ rw n (cut-FitsAll (stop - start) start stop (omega arith))
  ]
  fit-FitsAll (separator ∷ others) start stop h =
      let found = pieces text start stop separator in
      elim (Bool-cases (leb (count (slice text start stop)) limit)) [
        | inl y ↦ rw y (omega arith, h, (refl, inl (leb→le _ _ y)), omega arith)
        | inr n ↦ elim (Bool-cases (length found == 1)) [
          | inl one ↦ rw n (rw one (fit-FitsAll others start stop h))
          | inr several ↦ rw n (
              rw several (
                each_piece-FitsAll (λ a b. fit count limit text others a b) start found stop
                  (λ a b ab. fit-FitsAll others a b ab)
                  (pieces-Ordered text start stop separator (omega arith))))
        ]
      ]

  -- The units of a text stand in order, not empty and not overlapping, inside it; the tokens of
  -- each are those of its slice of the text, at most the limit unless it is one character long.
  pub units_of_text-FitsAll :
      FitsAll count limit text 0 (units_of_text count limit text) (length text)
  unfolding units_of_text
  units_of_text-FitsAll =
      each_piece-FitsAll _ 0 (pieces text 0 (length text) paragraph_break) (length text)
        (λ a b ab. fit-FitsAll (sentence_end ∷ (line_break ∷ (space ∷ []))) a b ab)
        (pieces-Ordered text 0 (length text) paragraph_break (omega arith))
