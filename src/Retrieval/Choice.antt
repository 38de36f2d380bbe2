-- ===== src/Retrieval/Choice.antt =====
-- `retrieve` of api/services/retrieval.py: what a search may return.
use synapse_canvas.Base.{
  ℕ, ◌+◌, ◌*◌, ◌≤◌, ◌<◌, ◌≡◌, refl, subst, leb→le, true, ◌&&◌, some, List, [], ◌∷◌, leb, ◌==◌, keep,
  length, All, arith, Bool-cases, ◌⊎◌, inl, inr,
}
use synapse_canvas.Base.Dict.{Dict}
use synapse_canvas.Sources.{Source, SourceChunk}
use synapse_canvas.Retrieval.{
  Row, is_searched, Searchable, nothing_to_search, searchable, mixed_models, model_mismatch,
  searchable_model, Search, choose, to_rows, candidates, retrieve,
}
use synapse_canvas.Retrieval.Loop.{
  tokens_of, Differs, Pairwise, choose-All, choose-limits, choose-Pairwise,
}

-- The database gives rows that it was asked for, and no others.
unfoldable pub Selects : (ℕ → List Row → List Row) → Type 1
Selects nearest =
    (P : Row → Type 0) (limit : ℕ) (rows : List Row) → All P rows → All P (nearest limit rows)

-- A passage of the workspace, of a source that is ready, of the provider's model, above the floor.
abbrev pub IsFound : Search → ℕ → Dict Source → Row → Type 0
IsFound s workspace_id sources r =
    (is_searched sources workspace_id r.chunk ≡ true)
    × (r.chunk.embedding_model ≡ s.model)
    × (r.distance ≡ s.distance r.chunk)
    × (r.distance + s.floor ≤ s.one)

abbrev IsAsked : Search → ℕ → Dict Source → Row → Type 0
IsAsked s workspace_id sources r =
    (is_searched sources workspace_id r.chunk ≡ true)
    × (r.chunk.embedding_model ≡ s.model)
    × (r.distance ≡ s.distance r.chunk)

rows-IsAsked :
    (s : Search) (workspace_id : ℕ) (sources : Dict Source) (chunks : List SourceChunk)
    → All (IsAsked s workspace_id sources) (
        to_rows s
          (keep (λ c. is_searched sources workspace_id c && (c.embedding_model == s.model)) chunks))
rows-IsAsked s workspace_id sources [] = tt
rows-IsAsked s workspace_id sources (c ∷ cs) =
    let rest = rows-IsAsked s workspace_id sources cs in
    let test = is_searched sources workspace_id c && (c.embedding_model == s.model) in
    elim (Bool-cases test) [
      | inl e ↦ rw e ((ground arith, ground arith, refl), rest)
      | inr e ↦ rw e rest
    ]

keep-IsFound :
    (s : Search) (workspace_id : ℕ) (sources : Dict Source) (rows : List Row)
    → All (IsAsked s workspace_id sources) rows
    → All (IsFound s workspace_id sources) (keep (λ r. leb (r.distance + s.floor) s.one) rows)
keep-IsFound s workspace_id sources [] h = tt
keep-IsFound s workspace_id sources (r ∷ rs) ((a, b, c), hs) =
    let rest = keep-IsFound s workspace_id sources rs hs in
    elim (Bool-cases (leb (r.distance + s.floor) s.one)) [
      | inl e ↦ rw e ((a, b, c, leb→le (r.distance + s.floor) s.one e), rest)
      | inr e ↦ rw e rest
    ]

Searchable-cases :
    (x : Searchable)
    → (x ≡ searchable) ⊎ (x ≡ nothing_to_search) ⊎ (x ≡ mixed_models) ⊎ (x ≡ model_mismatch)
Searchable-cases searchable = inl refl
Searchable-cases nothing_to_search = inr (inl refl)
Searchable-cases mixed_models = inr (inr (inl refl))
Searchable-cases model_mismatch = inr (inr (inr refl))

-- A search that succeeds returns passages of ready sources of the workspace only, of the provider's
-- model and above the similarity floor, whatever the database takes for the nearest of the rows that
-- it was asked for. They are at most `top_k`, their tokens fit the budget, and no two of one source
-- are near-identical. `top_k` is not 0, for which the code puts its default.
pub retrieve-IsFound :
    (s : Search) (workspace_id : ℕ) (sources : Dict Source) (chunks : List SourceChunk)
    (found : List Row)
    → Selects s.nearest
    → 0 < s.top_k
    → retrieve s workspace_id sources chunks ≡ some found
    → All (IsFound s workspace_id sources) found
      × (length found ≤ s.top_k)
      × (tokens_of found ≤ s.token_budget)
      × Pairwise (Differs s) found
unfolding retrieve candidates Selects
retrieve-IsFound s workspace_id sources chunks found selects positive run =
    elim (Searchable-cases
      (searchable_model s.model s.dimension (keep (is_searched sources workspace_id) chunks))) [
        | inl e ↦
            let rows = candidates s workspace_id sources chunks in
            let same : choose s rows [] s.token_budget 0 ≡ found = ground arith in
            let asked = rows-IsAsked s workspace_id sources chunks in
            let near = selects (IsAsked s workspace_id sources) (s.top_k * 4) _ asked in
            let above = keep-IsFound s workspace_id sources _ near in
            let (tokens, count) = choose-limits s rows [] s.token_budget 0 positive in
            subst
              (λ f.
                All (IsFound s workspace_id sources) f
                × (length f ≤ s.top_k)
                × (tokens_of f ≤ s.token_budget)
                × Pairwise (Differs s) f)
              same
              (
                choose-All s (IsFound s workspace_id sources) rows [] s.token_budget 0 above,
                omega arith,
                tokens,
                choose-Pairwise s rows [] s.token_budget 0,
              )
        | inr (inl e) ↦
            let none_found : [] ≡ found = ground arith in
            subst
              (λ f.
                All (IsFound s workspace_id sources) f
                × (length f ≤ s.top_k)
                × (tokens_of f ≤ s.token_budget)
                × Pairwise (Differs s) f)
              none_found (tt, omega arith, omega arith, tt)
        | inr (inr (inl e)) ↦ absurd (ground arith)
        | inr (inr (inr e)) ↦ absurd (ground arith)
      ]
