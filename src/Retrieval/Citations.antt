-- ===== src/Retrieval/Citations.antt =====
-- api/services/citations.py: the markers of an answer, resolved against the passages that were sent.
-- A passage's id is its source and index. The Unicode table of decimal digits is an argument.
use synapse_canvas.Base.{
  ℕ, zero, suc, ◌+◌, ◌-◌, ◌*◌, ◌≤◌, ◌≡◌, refl, Bool, false, not, ◌&&◌, ◌||◌, Option, none, some,
  List, [], ◌∷◌, ◌++◌, leb, ◌==◌, if◌then◌else◌, any, keep, length, count_if, get_elem?, All, arith,
  Bool-cases, Option-cases, inl, inr,
}
use synapse_canvas.Base.Counts.{get_elem?-some}
use synapse_canvas.ProseMirror.Utf16.{Text}
use synapse_canvas.ProseMirror.Edit.Inline.{lstrip}
use synapse_canvas.Retrieval.{Row}

pub record Citation : Type 0 where
  pub marker : ℕ
  pub source_id : ℕ
  pub chunk_index : ℕ
  pub page_number : Option ℕ
  pub char_start : ℕ
  pub char_end : ℕ

abbrev pub first_is : ℕ → Text → Bool
first_is c [] = false
first_is c (d ∷ ds) = d == c

abbrev pub after_first : Text → Text
after_first [] = []
after_first (c ∷ cs) = cs

-- `dict.setdefault` over the numbers.
unfoldable pub once_each : List ℕ → List ℕ
once_each [] = []
once_each (n ∷ ns) = n ∷ keep (λ m. not (m == n)) (once_each ns)

abbrev pub citation_of : ℕ → Row → Citation
citation_of marker row = record {
  marker = marker;
  source_id = row.chunk.source_id;
  chunk_index = row.chunk.chunk_index;
  page_number = row.chunk.page_number;
  char_start = row.chunk.char_start;
  char_end = row.chunk.char_end;
}

unfoldable pub resolve_markers : List ℕ → List Row → List Citation
resolve_markers [] sent = []
resolve_markers (m ∷ ms) sent =
    let rest = resolve_markers ms sent in
    if leb 1 m && leb m (length sent)
    then (elim (get_elem? sent (m - 1)) [ none ↦ rest | some row ↦ citation_of m row ∷ rest ])
    else rest

module _ (digit : ℕ → Option ℕ) where
  -- At most so many more digits of a number.
  unfoldable pub more_digits : ℕ → ℕ → Text → ℕ × Text
  more_digits zero value t = (value, t)
  more_digits (suc left) value [] = (value, [])
  more_digits (suc left) value (c ∷ cs) = elim (digit c) [
    | none ↦ (value, c ∷ cs)
    | some d ↦ more_digits left (value * 10 + d) cs
  ]

  -- `\d{1,3}` and what follows it.
  unfoldable pub number : Text → Option (ℕ × Text)
  unfolding more_digits
  number [] = none
  number (c ∷ cs) = elim (digit c) [ none ↦ none | some d ↦ some (more_digits 2 d cs) ]

  -- The numbers up to the closing bracket, and what follows it. A digit that follows three, or a
  -- space before the bracket, fits no way of matching. `fuel` is at least the length.
  unfoldable pub group : ℕ → Text → Option (List ℕ × Text)
  unfolding number lstrip
  group zero t = none
  group (suc fuel) t = elim (number t) [
    | none ↦ none
    | some found ↦
        if first_is b']' found.1
        then some (found.0 ∷ [], after_first found.1)
        else (let next = lstrip found.1 in
            if first_is b',' next || first_is b';' next
            then (elim (group fuel (lstrip (after_first next))) [
              | none ↦ none
              | some others ↦ some (found.0 ∷ others.0, others.1)
            ])
            else none)
  ]

  -- `_MARKERS.findall`, each group split into its numbers.
  unfoldable pub find_numbers : ℕ → Text → List ℕ
  unfolding group
  find_numbers zero t = []
  find_numbers (suc fuel) [] = []
  find_numbers (suc fuel) (c ∷ cs) =
      if c == b'['
      then (elim (group (length cs) cs) [
        | none ↦ find_numbers fuel cs
        | some found ↦ found.0 ++ find_numbers fuel found.1
      ])
      else find_numbers fuel cs

  unfoldable pub cited_markers : Text → List ℕ
  unfolding find_numbers once_each
  cited_markers response = once_each (find_numbers (length response) response)

  unfoldable pub resolve : Text → List Row → List Citation
  unfolding cited_markers resolve_markers
  resolve response sent = resolve_markers (cited_markers response) sent

abbrev pub cites : ℕ → Citation → Bool
cites m c = c.marker == m

abbrev pub is_number : ℕ → ℕ → Bool
is_number m n = n == m

-- The passage behind a citation is the one sent under its number.
abbrev pub IsOf : List Row → Citation → Type 0
IsOf sent c =
    (row : Row) × (1 ≤ c.marker)
    × (get_elem? sent (c.marker - 1) ≡ some row)
    × (c ≡ citation_of c.marker row)

resolve_markers-IsOf : (ms : List ℕ) (sent : List Row) → All (IsOf sent) (resolve_markers ms sent)
unfolding resolve_markers
resolve_markers-IsOf [] sent = tt
resolve_markers-IsOf (m ∷ ms) sent =
    let rest = resolve_markers-IsOf ms sent in
    elim (Bool-cases (leb 1 m && leb m (length sent))) [
      | inr e ↦ rw (e, resolve_markers) rest
      | inl e ↦ elim (Option-cases (get_elem? sent (m - 1))) [
        | inl f ↦ rw (e, resolve_markers) (rw f rest)
        | inr (row, f) ↦ rw (e, resolve_markers) (rw f ((row, ground arith, f, refl), rest))
      ]
    ]

resolve_markers-count :
    (m : ℕ) (ms : List ℕ) (sent : List Row)
    → count_if (cites m) (resolve_markers ms sent)
      ≡ (if leb 1 m && leb m (length sent) then count_if (is_number m) ms else 0)
unfolding resolve_markers
resolve_markers-count m [] sent = ground arith
resolve_markers-count m (n ∷ ns) sent =
    let rest = resolve_markers-count m ns sent in
    elim (Bool-cases (leb 1 n && leb n (length sent))) [
      | inr e ↦ rw (e, resolve_markers) (ground arith)
      | inl e ↦
          let (row, f) = get_elem?-some sent (n - 1) (ground arith) in
          rw (e, resolve_markers) (rw f (ground arith))
    ]

count_if-keep_other :
    (m n : ℕ) (ns : List ℕ)
    → count_if (is_number m) (keep (λ k. not (k == n)) ns)
      ≡ (if n == m then 0 else count_if (is_number m) ns)
count_if-keep_other m n [] = ground arith
count_if-keep_other m n (k ∷ ks) = ground (arith, count_if-keep_other m n ks)

once_each-count :
    (m : ℕ) (ns : List ℕ)
    → count_if (is_number m) (once_each ns) ≡ (if any (is_number m) ns then 1 else 0)
unfolding once_each
once_each-count m [] = refl
once_each-count m (n ∷ ns) =
    ground (arith, once_each-count m ns, count_if-keep_other m n (once_each ns))

-- The citations of an answer are those of its numbers that name a passage that was sent, each once,
-- and each has the place of the very passage sent under its number: a number that the model
-- invents cites nothing, and none is left out.
pub resolve-IsOf :
    (digit : ℕ → Option ℕ) (response : Text) (sent : List Row)
    → All (IsOf sent) (resolve digit response sent)
      × ((m : ℕ)
          → count_if (cites m) (resolve digit response sent) ≡ (
              if leb 1 m
                && leb m (length sent)
                && any (is_number m) (find_numbers digit (length response) response)
              then 1
              else 0))
unfolding resolve cited_markers
resolve-IsOf digit response sent =
    let found = find_numbers digit (length response) response in
    (
      resolve_markers-IsOf (once_each found) sent,
      λ m. ground (arith, resolve_markers-count m (once_each found) sent, once_each-count m found),
    )
