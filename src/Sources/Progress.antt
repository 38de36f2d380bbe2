-- ===== src/Sources/Progress.antt =====
-- api/services/ingestion.py: the rows that a batch adds, and the unique key of passages.
use synapse_canvas.Base.{
  ℕ, ◌+◌, ◌≤◌, ◌≡◌, refl, ap, subst, Bool, true, false, not, some, List, [], ◌∷◌, ◌++◌, ◌==◌,
  if◌then◌else◌, keep, any, count_if, length, arith, Bool-cases, Option-cases, inl, inr, map, All,
}
use synapse_canvas.Base.Counts.{count_if-append, any-count_if, any-count_if_zero}
use synapse_canvas.Base.Texts.{text_eq, text_eq_sound, text_eq_refl}
use synapse_canvas.ProseMirror.Utf16.{Text}
use synapse_canvas.Chunking.Packing.{ChunkDraft}
use synapse_canvas.Sources.{SourceChunk, Vector}
use synapse_canvas.Sources.Ingestion.{has_index}
use synapse_canvas.Sources.Batching.{
  Provider, is_chunk, new_chunk, new_chunks, insert_chunks, from_keys, vector_of,
}

-- The unique (source_id, chunk_index).
abbrev pub Unique : List SourceChunk → Type 0
Unique chunks = (source_id i : ℕ) → count_if (is_chunk source_id i) chunks ≤ 1

is_chunk-same :
    (s i : ℕ) (r : SourceChunk) → is_chunk s i r ≡ true → (r.source_id ≡ s) × (r.chunk_index ≡ i)
is_chunk-same s i r h = ground arith

pub insert_chunks-Unique :
    (chunks rows after : List SourceChunk)
    → Unique chunks
    → insert_chunks chunks rows ≡ some after
    → Unique after
unfolding insert_chunks
insert_chunks-Unique chunks [] after u h = subst Unique (ground arith) u
insert_chunks-Unique chunks (r ∷ rs) after u h =
    elim (Bool-cases (any (is_chunk r.source_id r.chunk_index) chunks)) [
      | inl e ↦ absurd (ground arith)
      | inr e ↦
          insert_chunks-Unique (chunks ++ (r ∷ [])) rs after
            (λ s i. ground (
              arith,
              count_if-append (is_chunk s i) chunks (r ∷ []),
              u s i,
              any-count_if (is_chunk r.source_id r.chunk_index) chunks e,
              is_chunk-same s i r,
              ap (λ k. count_if (is_chunk k r.chunk_index) chunks) {x = r.source_id} {y = s},
              ap (λ k. count_if (is_chunk s k) chunks) {x = r.chunk_index} {y = i},
            ))
            (ground arith)
    ]

pub insert_chunks-fits :
    (chunks rows : List SourceChunk)
    → ((s i : ℕ) → count_if (is_chunk s i) chunks + count_if (is_chunk s i) rows ≤ 1)
    → (after : List SourceChunk) × (insert_chunks chunks rows ≡ some after)
unfolding insert_chunks
insert_chunks-fits chunks [] fits = (chunks, refl)
insert_chunks-fits chunks (r ∷ rs) fits =
    let free =
      any-count_if_zero (is_chunk r.source_id r.chunk_index) chunks
        (ground (arith, fits r.source_id r.chunk_index)) in
    let (after, same) =
      insert_chunks-fits (chunks ++ (r ∷ [])) rs
        λ s i. omega (arith, fits s i, count_if-append (is_chunk s i) chunks (r ∷ [])) in
    (after, rw free same)

abbrev pub has_text : Text → List Text → Bool
has_text x texts = any (λ y. text_eq y x) texts

has_text-keep :
    (x z : Text) (xs : List Text)
    → text_eq z x ≡ false
    → has_text x (keep (λ y. not (text_eq z y)) xs) ≡ has_text x xs
has_text-keep x z [] h = refl
has_text-keep x z (y ∷ ys) h =
    ground (arith, has_text-keep x z ys h, text_eq_sound z y, ap (λ k. text_eq k x) {x = z} {y = y})

pub has_text-from_keys : (x : Text) (xs : List Text) → has_text x (from_keys xs) ≡ has_text x xs
unfolding from_keys
has_text-from_keys x [] = refl
has_text-from_keys x (y ∷ ys) =
    ground (arith, has_text-from_keys x ys, has_text-keep x y (from_keys ys))

vector_of-total :
    (texts : List Text) (vectors : List Vector) (x : Text)
    → length texts ≡ length vectors
    → has_text x texts ≡ true
    → (v : Vector) × (vector_of texts vectors x ≡ some v)
unfolding vector_of
vector_of-total [] [] x same h = absurd (ground arith)
vector_of-total [] (v ∷ vs) x same h = absurd (ground arith)
vector_of-total (y ∷ ys) [] x same h = absurd (ground arith)
vector_of-total (y ∷ ys) (v ∷ vs) x same h = elim (Bool-cases (text_eq y x)) [
  | inl e ↦ (v, rw e refl)
  | inr e ↦
      let (found, at) = vector_of-total ys vs x (omega arith) (ground arith) in (found, rw e at)
]

module _ (p : Provider) (source_id workspace_id : ℕ) (texts : List Text)
    (vectors : List Vector) where
  pub new_chunks-total :
      (ds : List ChunkDraft)
      → length texts ≡ length vectors
      → All (λ d. has_text d.content texts ≡ true) ds
      → (rows : List SourceChunk) × (new_chunks p source_id workspace_id texts vectors ds
          ≡ some rows)
  unfolding new_chunks
  new_chunks-total [] same all = ([], refl)
  new_chunks-total (d ∷ ds) same (h, all) =
      let (v, at) = vector_of-total texts vectors d.content same h in
      let (rows, rest) = new_chunks-total ds same all in
      (new_chunk p source_id workspace_id d v ∷ rows, ground arith)

  pub new_chunks-count :
      (ds : List ChunkDraft) (rows : List SourceChunk) (s i : ℕ)
      → new_chunks p source_id workspace_id texts vectors ds ≡ some rows
      → count_if (is_chunk s i) rows ≡ (if source_id == s then count_if (has_index i) ds else 0)
  unfolding new_chunks
  new_chunks-count [] rows s i h = ground arith
  new_chunks-count (d ∷ ds) rows s i h = elim (Option-cases (vector_of texts vectors d.content)) [
    | inl e ↦ absurd (ground arith)
    | inr (v, e) ↦ elim (Option-cases (new_chunks p source_id workspace_id texts vectors ds)) [
      | inl f ↦ absurd (ground arith)
      | inr (rest, f) ↦ ground (arith, new_chunks-count ds rest s i f)
    ]
  ]

pub contents_there :
    (ds : List ChunkDraft) (texts : List Text)
    → ((y : Text) → has_text y (map (λ d. d.content) ds) ≡ true → has_text y texts ≡ true)
    → All (λ d. has_text d.content texts ≡ true) ds
contents_there [] texts h = tt
contents_there (d ∷ ds) texts h = (
  h d.content (ground (arith, text_eq_refl d.content)),
  contents_there ds texts λ y there. h y (ground arith),
)
