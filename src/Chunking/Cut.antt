-- ===== src/Chunking/Cut.antt =====
-- `_cut` of api/services/chunking.py: the longest prefix that fits, again and again.
use synapse_canvas.Base.{
  ℕ, zero, suc, ◌+◌, ◌-◌, ◌/◌, ◌≤◌, ◌<◌, ◌≡◌, refl, List, [], ◌∷◌, arith, leb, ltb, inl, inr,
  Bool-cases, leb→le, ◌⊎◌,
}
use synapse_canvas.ProseMirror.Utf16.{Text}
use synapse_canvas.Chunking.{slice, TextUnit, bisect, cut}

module _ (count : Text → ℕ) (limit : ℕ) (text : Text) where
  -- The units meet end to end from `start` to `stop`, with the counts of what they hold. None is
  -- empty; each fits, unless it is a single character; and none can be longer: one that ends later,
  -- up to `stop`, is over the limit.
  abbrev pub Longest : ℕ → List TextUnit → ℕ → Type 0
  Longest start [] stop = start ≡ stop
  Longest start (u ∷ us) stop =
      (u.start ≡ start)
      × (start < u.stop)
      × (u.tokens ≡ count (slice text start u.stop))
      × ((u.tokens ≤ limit) ⊎ (u.stop ≡ start + 1))
      × ((x : ℕ) → u.stop < x → x ≤ stop → limit < count (slice text start x))
      × Longest u.stop us stop

  abbrev pub Monotone : Type 0
  Monotone = (start x y : ℕ) → x ≤ y → count (slice text start x) ≤ count (slice text start y)

  -- What the bisection answers with fits, unless it is the least end, which it does not try.
  bisect-Fits :
      (start least fuel low high : ℕ)
      → (count (slice text start low) ≤ limit) ⊎ (low ≡ least)
      → let end = bisect count limit text start fuel low high in
        (count (slice text start end) ≤ limit) ⊎ (end ≡ least)
  unfolding bisect
  bisect-Fits start least zero low high h = h
  bisect-Fits start least (suc fuel) low high h =
      let middle = (low + high + 1) / 2 in
      elim (Bool-cases (ltb low high)) [
        | inr e ↦ rw e h
        | inl e ↦ elim (Bool-cases (leb (count (slice text start middle)) limit)) [
          | inl y ↦ rw e (rw y (bisect-Fits start least fuel middle high (inl (leb→le _ _ y))))
          | inr n ↦ rw e (rw n (bisect-Fits start least fuel low (middle - 1) h))
        ]
      ]

  bisect-Longest :
      Monotone
      → (start fuel low high : ℕ) → low ≤ high
      → high ≤ low + fuel
      → (low ≤ bisect count limit text start fuel low high)
        × (bisect count limit text start fuel low high ≤ high)
        × ((x : ℕ)
            → bisect count limit text start fuel low high < x
            → x ≤ high
            → limit < count (slice text start x))
  unfolding bisect
  bisect-Longest mono start zero low high h enough =
      (omega arith, omega arith, λ x below le. omega arith)
  bisect-Longest mono start (suc fuel) low high h enough =
      let middle = (low + high + 1) / 2 in
      elim (Bool-cases (ltb low high)) [
        | inr e ↦ rw e (omega arith, h, λ x below le. ground arith)
        | inl e ↦
            let apart : low < high = ground arith in
            elim (Bool-cases (leb (count (slice text start middle)) limit)) [
              | inl y ↦
                  let (a, b, c) =
                    bisect-Longest mono start fuel middle high (omega arith) (omega arith) in
                  rw e (rw y (omega arith, b, c))
              | inr n ↦
                  let (a, b, c) =
                    bisect-Longest mono start fuel low (middle - 1) (omega arith) (omega arith) in
                  rw e (
                    rw n (
                      a,
                      omega arith,
                      λ x below le. elim (Bool-cases (leb x (middle - 1))) [
                        | inl inside ↦ c x below (leb→le _ _ inside)
                        | inr outside ↦ ground (arith, mono start middle x)
                      ],
                    ))
            ]
      ]

  -- With enough fuel; `cut` of `_fit` has the length of the stretch.
  cut-Longest_lem :
      Monotone
      → (fuel start stop : ℕ) → start ≤ stop
      → stop ≤ start + fuel
      → Longest start (cut count limit text fuel start stop) stop
  unfolding cut
  cut-Longest_lem mono zero start stop h enough = omega arith
  cut-Longest_lem mono (suc fuel) start stop h enough =
      let gap = stop - (start + 1) in
      let low = bisect count limit text start gap (start + 1) stop in
      elim (Bool-cases (ltb start stop)) [
        | inr e ↦ rw e (ground arith)
        | inl e ↦
            let (a, b, c) =
              bisect-Longest mono start gap (start + 1) stop (ground arith) (omega arith) in
            let fits = bisect-Fits start (start + 1) gap (start + 1) stop (inr refl) in
            rw e
              (refl, omega arith, refl, fits, c, cut-Longest_lem mono fuel low stop b (omega arith))
      ]

  -- Where a longer prefix never has fewer tokens, `_cut` divides its stretch of the text without
  -- a gap into units that are not empty, each with the count of its text. Each unit is within the
  -- limit, unless it is a single character, and is the longest that is: one that ended later
  -- within the stretch would be over the limit.
  pub cut-Longest :
      Monotone
      → (start stop : ℕ) → start ≤ stop
      → Longest start (cut count limit text (stop - start) start stop) stop
  cut-Longest mono start stop h = cut-Longest_lem mono (stop - start) start stop h (omega arith)
