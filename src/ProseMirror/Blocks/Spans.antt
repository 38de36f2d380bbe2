-- ===== src/ProseMirror/Blocks/Spans.antt =====
-- `_block_spans` and `_block_at`: the spans tile the document, and a hit is a span that holds the
-- position.
use synapse_canvas.Base.{
  ℕ, zero, suc, ◌+◌, ◌≤◌, ◌<◌, ◌≡◌, refl, List, [], ◌∷◌, arith, Bool, true, false, some, length,
  get_elem?, take, Bool-cases, inl, inr, All,
}
use synapse_canvas.ProseMirror.Node.{Node, node_size, list_size}
use synapse_canvas.ProseMirror.Blocks.{Span, spans_from, holds_pos, block_at_from, block_at}

-- Span `i` runs from the size of the blocks before it to the size of the blocks up to it.
pub get_elem?-spans_from :
    (pos : ℕ) (ns : List Node) (i : ℕ) (s : Span)
    → get_elem? (spans_from pos ns) i ≡ some s
    → (s.0 ≡ pos + list_size (take i ns))
      × (s.1 ≡ pos + list_size (take (suc i) ns))
      × (i < length ns)
unfolding spans_from list_size
get_elem?-spans_from pos [] i s h = cc
get_elem?-spans_from pos (n ∷ ns) zero s h = ground arith
get_elem?-spans_from pos (n ∷ ns) (suc i) s h =
    let (a, b, c) = get_elem?-spans_from (pos + node_size n) ns i s h in
    (omega arith, omega arith, omega arith)

pub length-spans_from : (pos : ℕ) (ns : List Node) → length (spans_from pos ns) ≡ length ns
unfolding spans_from
length-spans_from pos [] = refl
length-spans_from pos (n ∷ ns) = omega (arith, length-spans_from (pos + node_size n) ns)

pub block_at_from_sound :
    (k : ℕ) (spans : List Span) (pos : ℕ) (forward : Bool) (i : ℕ)
    → block_at_from k spans pos forward ≡ some i
    → (j : ℕ) × (s : Span) × (i ≡ k + j)
      × (get_elem? spans j ≡ some s)
      × (holds_pos pos forward s ≡ true)
unfolding block_at_from
block_at_from_sound k [] pos forward i h = cc
block_at_from_sound k (s ∷ spans) pos forward i h = elim (Bool-cases (holds_pos pos forward s)) [
  | inl hit ↦ (0, s, ground arith, refl, hit)
  | inr miss ↦
      let (j, t, e, at, holds) = block_at_from_sound (suc k) spans pos forward i (ground arith) in
      (suc j, t, omega arith, at, holds)
]

-- What a hit of `_block_at` says of the document.
pub block_at_sound :
    (ns : List Node) (pos : ℕ) (forward : Bool) (i : ℕ)
    → block_at (spans_from 0 ns) pos forward ≡ some i
    → (s : Span) × (get_elem? (spans_from 0 ns) i ≡ some s)
      × (s.0 ≡ list_size (take i ns))
      × (s.1 ≡ list_size (take (suc i) ns))
      × (i < length ns)
      × (holds_pos pos forward s ≡ true)
unfolding block_at
block_at_sound ns pos forward i h =
    let (j, s, e, at, holds) = block_at_from_sound 0 (spans_from 0 ns) pos forward i h in
    let at_i : get_elem? (spans_from 0 ns) i ≡ some s = ground arith in
    let (a, b, c) = get_elem?-spans_from 0 ns i s at_i in
    (s, at_i, omega arith, omega arith, c, holds)

-- A node of no size is an empty text, which no document holds.
abbrev pub IsFilled : List Node → Type 0
IsFilled = All (λ n. 0 < node_size n)

filled_after :
    (pos : ℕ) (ns : List Node) (i : ℕ) (s : Span)
    → IsFilled ns
    → get_elem? (spans_from pos ns) i ≡ some s
    → (pos ≤ s.0) × (s.0 < s.1)
unfolding spans_from
filled_after pos [] i s f h = cc
filled_after pos (n ∷ ns) zero s f h = ground arith
filled_after pos (n ∷ ns) (suc i) s f h =
    ground (arith, filled_after (pos + node_size n) ns i s f.1 h)

-- The start of a block is found again as that block, looking forward.
pub block_at_from-start :
    (k pos : ℕ) (ns : List Node) (i : ℕ) (s : Span)
    → IsFilled ns
    → get_elem? (spans_from pos ns) i ≡ some s
    → block_at_from k (spans_from pos ns) s.0 true ≡ some (k + i)
unfolding block_at_from spans_from
block_at_from-start k pos [] i s f h = cc
block_at_from-start k pos (n ∷ ns) zero s f h = ground arith
block_at_from-start k pos (n ∷ ns) (suc i) s f h = ground (
  arith,
  get_elem?-spans_from (pos + node_size n) ns i s h,
  block_at_from-start (suc k) (pos + node_size n) ns i s f.1 h,
)

-- And its end, looking back.
pub block_at_from-end :
    (k pos : ℕ) (ns : List Node) (i : ℕ) (s : Span)
    → IsFilled ns
    → get_elem? (spans_from pos ns) i ≡ some s
    → block_at_from k (spans_from pos ns) s.1 false ≡ some (k + i)
unfolding block_at_from spans_from
block_at_from-end k pos [] i s f h = cc
block_at_from-end k pos (n ∷ ns) zero s f h = ground arith
block_at_from-end k pos (n ∷ ns) (suc i) s f h = ground (
  arith,
  get_elem?-spans_from (pos + node_size n) ns i s h,
  filled_after (pos + node_size n) ns i s f.1 h,
  block_at_from-end (suc k) (pos + node_size n) ns i s f.1 h,
)
