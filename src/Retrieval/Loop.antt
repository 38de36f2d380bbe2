-- ===== src/Retrieval/Loop.antt =====
-- The loop of api/services/retrieval.py that chooses passages: its limits and its near-duplicates.
use synapse_canvas.Base.{
  ℕ, ◌+◌, ◌-◌, ◌≤◌, ◌<◌, ◌≡◌, refl, sym, subst, ◌≢◌, false, List, [], ◌∷◌, ltb, ◌==◌, length, All,
  arith, Bool-cases, ◌⊎◌, inl, inr,
}
use synapse_canvas.Sources.{SourceChunk}
use synapse_canvas.Retrieval.{Row, near_identical, Search, Seen, repeats, choose}

abbrev pub tokens_of : List Row → ℕ
tokens_of [] = 0
tokens_of (r ∷ rs) = r.chunk.token_count + tokens_of rs

-- Two passages of one source that do not say the same.
abbrev pub Differs : Search → Row → Row → Type 0
Differs s r t =
    r.chunk.source_id ≡ t.chunk.source_id
    → near_identical (s.words t.chunk.content) (s.words r.chunk.content) ≡ false

abbrev pub Pairwise : (Row → Row → Type 0) → List Row → Type 0
Pairwise R [] = Unit
Pairwise R (r ∷ rs) = All (R r) rs × Pairwise R rs

-- What the loop does after it chose a row, another round away from the limit.
abbrev pub chosen_then : Search → Row → List Row → Seen → ℕ → ℕ → List Row
chosen_then s r rs seen budget count =
    choose s rs ((r.chunk.source_id, s.words r.chunk.content) ∷ seen) (budget - r.chunk.token_count)
      (count + 1)

-- A row is passed over, or it repeats nothing, fits, and is the last one or is followed by others.
pub choose-Ends :
    (s : Search) (r : Row) (rs : List Row) (seen : Seen) (budget count : ℕ)
    → (choose s (r ∷ rs) seen budget count ≡ choose s rs seen budget count)
      ⊎ ((repeats s r.chunk seen ≡ false)
          × (r.chunk.token_count ≤ budget)
          × ((choose s (r ∷ rs) seen budget count ≡ r ∷ [])
              ⊎ ((count + 1 ≢ s.top_k)
                  × (choose s (r ∷ rs) seen budget count
                      ≡ r ∷ chosen_then s r rs seen budget count))))
unfolding choose
choose-Ends s r rs seen budget count = elim (Bool-cases (repeats s r.chunk seen)) [
  | inl e ↦ inl (rw (e, choose) refl)
  | inr e ↦ elim (Bool-cases (ltb budget r.chunk.token_count)) [
    | inl f ↦ inl (rw (e, choose) (rw f refl))
    | inr f ↦ elim (Bool-cases (count + 1 == s.top_k)) [
      | inl g ↦ inr (e, ground arith, inl (rw (e, choose) (rw f (rw g refl))))
      | inr g ↦ inr (e, ground arith, inr (ground arith, rw (e, choose) (rw f (rw g refl))))
    ]
  ]
]

pub choose-All :
    (s : Search) (P : Row → Type 0) (rows : List Row) (seen : Seen) (budget count : ℕ)
    → All P rows
    → All P (choose s rows seen budget count)
unfolding choose
choose-All s P [] seen budget count h = tt
choose-All s P (r ∷ rs) seen budget count (h, hs) = elim (choose-Ends s r rs seen budget count) [
  | inl run ↦ subst (All P) (sym run) (choose-All s P rs seen budget count hs)
  | inr (e, f, inl run) ↦ subst (All P) (sym run) (h, tt)
  | inr (e, f, inr (g, run)) ↦ subst (All P) (sym run) (h, choose-All s P rs _ _ (count + 1) hs)
]

pub choose-limits :
    (s : Search) (rows : List Row) (seen : Seen) (budget count : ℕ)
    → count < s.top_k
    → (tokens_of (choose s rows seen budget count) ≤ budget)
      × (count + length (choose s rows seen budget count) ≤ s.top_k)
unfolding choose
choose-limits s [] seen budget count h = (omega arith, omega arith)
choose-limits s (r ∷ rs) seen budget count h =
    let P = λ (found : List Row). (tokens_of found ≤ budget) × (count + length found ≤ s.top_k) in
    elim (choose-Ends s r rs seen budget count) [
      | inl run ↦ subst P (sym run) (choose-limits s rs seen budget count h)
      | inr (e, f, inl run) ↦ subst P (sym run) (omega arith, omega arith)
      | inr (e, f, inr (g, run)) ↦
          let (a, b) =
            choose-limits s rs ((r.chunk.source_id, s.words r.chunk.content) ∷ seen)
              (budget - r.chunk.token_count) (count + 1) (omega arith) in
          subst P (sym run) (omega arith, omega arith)
    ]

-- A passage that was seen before a loop differs from what the loop chooses.
abbrev pub Fresh : Search → ℕ → List ℕ → Row → Type 0
Fresh s source_id words t =
    source_id ≡ t.chunk.source_id → near_identical (s.words t.chunk.content) words ≡ false

abbrev pub IsSeen : ℕ → List ℕ → Seen → Type 0
IsSeen source_id words seen =
    (s : Search) (c : SourceChunk)
    → repeats s c seen ≡ false
    → source_id ≡ c.source_id
    → near_identical (s.words c.content) words ≡ false

pub IsSeen-first :
    (source_id : ℕ) (words : List ℕ) (seen : Seen)
    → IsSeen source_id words ((source_id, words) ∷ seen)
IsSeen-first source_id words seen s c h same = ground arith

pub IsSeen-more :
    (source_id : ℕ) (words : List ℕ) (o : ℕ × List ℕ) (seen : Seen)
    → IsSeen source_id words seen
    → IsSeen source_id words (o ∷ seen)
IsSeen-more source_id words o seen h s c r same = h s c (ground arith) same

pub choose-Fresh :
    (s : Search) (rows : List Row) (seen : Seen) (budget count source_id : ℕ) (words : List ℕ)
    → IsSeen source_id words seen
    → All (Fresh s source_id words) (choose s rows seen budget count)
unfolding choose
choose-Fresh s [] seen budget count source_id words h = tt
choose-Fresh s (r ∷ rs) seen budget count source_id words h =
    let P = All (Fresh s source_id words) in
    let mine = s.words r.chunk.content in
    elim (choose-Ends s r rs seen budget count) [
      | inl run ↦ subst P (sym run) (choose-Fresh s rs seen budget count source_id words h)
      | inr (e, f, inl run) ↦ subst P (sym run) (h s r.chunk e, tt)
      | inr (e, f, inr (g, run)) ↦ subst P (sym run) (
        h s r.chunk e,
        choose-Fresh s rs ((r.chunk.source_id, mine) ∷ seen) (budget - r.chunk.token_count)
            (count + 1) source_id words
            (IsSeen-more source_id words (r.chunk.source_id, mine) seen h),
      )
    ]

pub choose-Pairwise :
    (s : Search) (rows : List Row) (seen : Seen) (budget count : ℕ)
    → Pairwise (Differs s) (choose s rows seen budget count)
unfolding choose
choose-Pairwise s [] seen budget count = tt
choose-Pairwise s (r ∷ rs) seen budget count =
    let P = Pairwise (Differs s) in
    let mine = s.words r.chunk.content in
    let after : Seen = (r.chunk.source_id, mine) ∷ seen in
    elim (choose-Ends s r rs seen budget count) [
      | inl run ↦ subst P (sym run) (choose-Pairwise s rs seen budget count)
      | inr (e, f, inl run) ↦ subst P (sym run) (tt, tt)
      | inr (e, f, inr (g, run)) ↦ subst P (sym run) (
        choose-Fresh s rs after (budget - r.chunk.token_count) (count + 1) r.chunk.source_id mine
            (IsSeen-first r.chunk.source_id mine seen),
        choose-Pairwise s rs after (budget - r.chunk.token_count) (count + 1),
      )
    ]
