-- ===== src/ProseMirror/Edit.antt =====
-- api/services/prosemirror.py: the edits that an AI response becomes. `snap_selection`,
-- `replace_selection` and `insert_after`, with the inline helpers that they call.
pub mod Inline
pub mod Replay
pub mod Select
pub mod Merging
pub mod Slices
pub mod InBlock
mod Tests
use synapse_canvas.Base.{
  ℕ, zero, suc, ◌+◌, ◌-◌, ◌≡◌, refl, List, [], ◌∷◌, ◌++◌, Bool, true, false, ◌&&◌, Option, none,
  some, ltb, leb, if◌then◌else◌, take, drop, get_elem?, length, opt_eq, ◌==◌,
}
use synapse_canvas.ProseMirror.Utf16.{Text}
use synapse_canvas.ProseMirror.Node.{
  Node, Nodes, Kind, Attrs, text, elem, content, of_list, no_attrs, paragraph, code_block,
}
use synapse_canvas.ProseMirror.Blocks.{
  NodePath, Span, block_spans, block_at, textblock_at, get, put,
}
use Inline.{
  inline_nodes, paragraphs, slice_inline, normalize_inline, inline_text, lstrip, rstrip, strip,
  collapse_blank,
}

-- `Edit`, with the fields of its ReplaceStep; an empty slice is left out of the JSON.
pub record Edit : Type 0 where
  pub result : Node
  pub step_from : ℕ
  pub step_to : ℕ
  pub slice : List Node

infixl 5 ◌>>=◌
abbrev pub ◌>>=◌ {ℓ κ} : {A : Type ℓ} {B : Type κ} → Option A → (A → Option B) → Option B
none >>= f = none
some a >>= f = f a

pub >>=-eq-some {ℓ κ} :
    {A : Type ℓ} {B : Type κ} (m : Option A) (f : A → Option B) {b : B}
    → (m >>= f) ≡ some b
    → (a : A) × (m ≡ some a) × (f a ≡ some b)
>>=-eq-some none f h = cc
>>=-eq-some (some a) f h = (a, refl, h)

abbrev pub path_eq : NodePath → NodePath → Bool
path_eq [] [] = true
path_eq (i ∷ p) (j ∷ q) = i == j && path_eq p q
path_eq _ _ = false

-- `first is not None and last is not None and first[0] == last[0]`, and then `first`.
abbrev pub same_block : Option (NodePath × ℕ) → Option (NodePath × ℕ) → Option (NodePath × ℕ)
same_block (some (p, s)) (some (q, t)) = if path_eq p q then some (p, s) else none
same_block _ _ = none

-- From the block at `start` to the block at `stop`, as indexes of top-level blocks.
pub block_range : Node → ℕ → ℕ → Option (ℕ × ℕ)
block_range doc start stop = do
  i ← block_at (block_spans doc) start true
  j ← block_at (block_spans doc) stop false
  if leb i j then some (i, j) else none

abbrev pub span_range : List Span → ℕ × ℕ → Option (ℕ × ℕ)
span_range spans (i, j) = do s ← get_elem? spans i; t ← get_elem? spans j; some (s.0, t.1)

unfoldable pub snap_selection : Node → ℕ → ℕ → Option (ℕ × ℕ)
unfolding block_range
snap_selection doc start stop =
    elim (same_block (textblock_at doc start 0) (textblock_at doc stop 0)) [
      | some found ↦ some (start, stop)
      | none ↦ block_range doc start stop >>= span_range (block_spans doc)
    ]

-- `{**node, "content": children}`
abbrev pub with_children : Node → List Node → Node
with_children (text t marks) children = text t marks
with_children (elem k attrs c) children = elem k attrs (of_list children)

abbrev pub is_code : Node → Bool
is_code (elem code_block attrs c) = true
is_code _ = false

-- What the selected words become: the reply between the whitespace that the user selected.
pub replacement : Node → List Node → ℕ → ℕ → Text → List Node
replacement block children low high reply =
    let original = inline_text (slice_inline children low (some high)) in
    let lead = take (length original - length (lstrip original)) original in
    let trail = drop (length (rstrip original)) original in
    let body = if is_code block then strip reply else collapse_blank (strip reply) in
    inline_nodes (lead ++ (body ++ trail)) (is_code block)

pub merge_inline : List Node → ℕ → ℕ → List Node → List Node
merge_inline children low high inserted =
    normalize_inline
      (slice_inline children 0 (some low) ++ (inserted ++ slice_inline children high none))

pub replace_in_block : Node → NodePath → ℕ → ℕ → ℕ → Text → Option Edit
unfolding replacement merge_inline
replace_in_block doc path block_start start stop reply = do
  block ← get doc path
  let children = content block
  let low = start - block_start - 1
  let high = stop - block_start - 1
  let inserted = replacement block children low high reply
  let new_block = with_children block (merge_inline children low high inserted)
  result ← put doc path new_block
  some (record { result = result; step_from = start; step_to = stop; slice = inserted })

-- The whole top-level blocks from `i` to `j` give way to paragraphs.
pub replace_blocks : Node → ℕ × ℕ → Text → ℕ × ℕ → Option Edit
replace_blocks doc snapped reply (i, j) =
    let nodes = paragraphs reply in
    let children = content doc in
    some (record {
      result = with_children doc (take i children ++ (nodes ++ drop (j + 1) children));
      step_from = snapped.0;
      step_to = snapped.1;
      slice = nodes;
    })

-- The second `_block_at` pair of `replace_selection`; `none` is its failing `assert`.
pub reblock : Node → ℕ × ℕ → Option (ℕ × ℕ)
reblock doc snapped = do
  i ← block_at (block_spans doc) snapped.0 true
  j ← block_at (block_spans doc) snapped.1 false
  some (i, j)

unfoldable pub replace_selection : Node → ℕ → ℕ → Text → Option Edit
unfolding replace_in_block replace_blocks reblock
replace_selection doc start stop reply =
    elim (same_block (textblock_at doc start 0) (textblock_at doc stop 0)) [
      | some (path, block_start) ↦ replace_in_block doc path block_start start stop reply
      | none ↦ do
        snapped ← snap_selection doc start stop
        range ← reblock doc snapped
        replace_blocks doc snapped reply range
    ]

-- The block to insert behind: none is the start, `some i` block `i`.
pub insert_index : Node → Option ℕ → ℕ
insert_index doc none = length (block_spans doc)
insert_index doc (some pos) = elim (block_at (block_spans doc) pos false) [
  | none ↦ length (block_spans doc)
  | some found ↦ found + 1
]

-- `spans[index - 1][1] if index else 0`
abbrev pub end_of : List Span → ℕ → ℕ
end_of spans zero = 0
end_of spans (suc i) = elim (get_elem? spans i) [ none ↦ 0 | some s ↦ s.1 ]

unfoldable pub insert_after : Node → Option ℕ → Text → Edit
unfolding insert_index
insert_after doc pos reply =
    let index = insert_index doc pos in
    let at = end_of (block_spans doc) index in
    let nodes = paragraphs reply in
    let children = content doc in
    record {
      result = with_children doc (take index children ++ (nodes ++ drop index children));
      step_from = at;
      step_to = at;
      slice = nodes;
    }
