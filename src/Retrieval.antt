-- ===== src/Retrieval.antt =====
-- api/services/retrieval.py: the passages of a workspace closest to a question. Distances are in
-- fixed point, `one` being 1; the words of a text are numbered, each once.
pub mod Loop
pub mod Choice
pub mod Citations
pub mod Requests
pub mod Attempts
mod Tests
use synapse_canvas.Base.{
  ℕ, suc, ◌+◌, ◌-◌, ◌*◌, ◌≡◌, Bool, true, false, not, ◌&&◌, ◌||◌, Option, none, some, List, [], ◌∷◌,
  ◌++◌, ltb, leb, ◌==◌, if◌then◌else◌, any, keep, length, take,
}
use synapse_canvas.Base.Dict.{Dict, lookup}
use synapse_canvas.ProseMirror.Utf16.{Text}
use synapse_canvas.Sources.{
  Source, SourceChunk, SourceStatus, ready, pending, processing, failed, Tables,
}

-- A chunk with the distance of its embedding to the question's.
pub record Row : Type 0 where
  pub chunk : SourceChunk
  pub distance : ℕ

abbrev pub has_word : ℕ → List ℕ → Bool
has_word w words = any (λ v. v == w) words

-- `len(a & b)`
abbrev pub common : List ℕ → List ℕ → ℕ
common a b = length (keep (λ w. has_word w b) a)

abbrev pub no_words : List ℕ → Bool
no_words [] = true
no_words (_ ∷ _) = false

-- `len(a & b) / len(a | b) >= 0.85`
unfoldable pub near_identical : List ℕ → List ℕ → Bool
near_identical a b =
    if no_words a || no_words b
    then no_words a && no_words b
    else leb (85 * (length a + length b - common a b)) (100 * common a b)

abbrev pub is_ready : SourceStatus → Bool
is_ready ready = true
is_ready _ = false

abbrev pub is_ready_in : ℕ → Option Source → Bool
is_ready_in workspace_id none = false
is_ready_in workspace_id (some source) =
    (source.workspace_id == workspace_id) && is_ready source.status

-- The join with the chunk's source, and the filters that both queries share.
unfoldable pub is_searched : Dict Source → ℕ → SourceChunk → Bool
is_searched sources workspace_id c =
    (c.workspace_id == workspace_id) && is_ready_in workspace_id (lookup c.source_id sources)

pub data Searchable : Type 0 where
  nothing_to_search : Searchable
  searchable : Searchable
  mixed_models : Searchable
  model_mismatch : Searchable

abbrev pub is_model : ℕ → ℕ → SourceChunk → Bool
is_model model dimension c = (c.embedding_model == model) && (c.embedding_dimension == dimension)

-- The first chunk's model against the others', then against the provider's.
unfoldable pub searchable_model : ℕ → ℕ → List SourceChunk → Searchable
searchable_model model dimension [] = nothing_to_search
searchable_model model dimension (c ∷ cs) =
    if any (λ d. not (is_model c.embedding_model c.embedding_dimension d)) cs
    then mixed_models
    else if is_model model dimension c
    then searchable
    else model_mismatch

-- What a search needs beside the tables: the settings, the words of a text, the distance to the
-- question, and the database's choice of the nearest rows.
pub record Search : Type 0 where
  pub model : ℕ
  pub dimension : ℕ
  pub top_k : ℕ
  pub one : ℕ
  pub floor : ℕ
  pub token_budget : ℕ
  pub words : Text → List ℕ
  pub distance : SourceChunk → ℕ
  pub nearest : ℕ → List Row → List Row

abbrev pub Seen : Type 0
Seen = List (ℕ × List ℕ)

abbrev pub repeats : Search → SourceChunk → Seen → Bool
repeats s c seen = any (λ o. (o.0 == c.source_id) && near_identical (s.words c.content) o.1) seen

-- The loop over the rows; `count` have been chosen.
unfoldable pub choose : Search → List Row → Seen → ℕ → ℕ → List Row
unfolding near_identical
choose s [] seen budget count = []
choose s (r ∷ rs) seen budget count = elim (repeats s r.chunk seen) [
  | true ↦ choose s rs seen budget count
  | false ↦ elim (ltb budget r.chunk.token_count) [
    | true ↦ choose s rs seen budget count
    | false ↦ elim (count + 1 == s.top_k) [
      | true ↦ r ∷ []
      | false ↦
          r
          ∷ choose s rs ((r.chunk.source_id, s.words r.chunk.content) ∷ seen)
              (budget - r.chunk.token_count) (count + 1)
    ]
  ]
]

abbrev pub to_row : Search → SourceChunk → Row
to_row s c = record { chunk = c; distance = s.distance c }

abbrev pub to_rows : Search → List SourceChunk → List Row
to_rows s [] = []
to_rows s (c ∷ cs) = to_row s c ∷ to_rows s cs

-- The rows of the query: filtered, the nearest of them, and those above the floor.
unfoldable pub candidates : Search → ℕ → Dict Source → List SourceChunk → List Row
unfolding is_searched
candidates s workspace_id sources chunks =
    let asked =
      keep (λ c. is_searched sources workspace_id c && (c.embedding_model == s.model)) chunks in
    keep (λ r. leb (r.distance + s.floor) s.one) (s.nearest (s.top_k * 4) (to_rows s asked))

-- `retrieve`; none is an error.
unfoldable pub retrieve : Search → ℕ → Dict Source → List SourceChunk → Option (List Row)
unfolding is_searched searchable_model candidates choose
retrieve s workspace_id sources chunks =
    elim (searchable_model s.model s.dimension (keep (is_searched sources workspace_id) chunks)) [
      | nothing_to_search ↦ some []
      | mixed_models ↦ none
      | model_mismatch ↦ none
      | searchable ↦ some (choose s (candidates s workspace_id sources chunks) [] s.token_budget 0)
    ]
