-- ===== src/ProseMirror/Blocks.antt =====
-- api/services/prosemirror.py, `_block_spans`, `_block_at`, `_textblock_at`, `_get` and `_put`:
-- where a position lies, among the top-level blocks and down to a textblock.
pub mod Spans
pub mod Located
use synapse_canvas.Base.{
  ℕ, zero, suc, ◌+◌, List, [], ◌∷◌, Bool, true, false, ◌&&◌, ◌||◌, Option, none, some, ltb, ◌==◌,
  if◌then◌else◌,
}
use synapse_canvas.ProseMirror.Node.{
  Node, Nodes, text, elem, nil, cons, is_leaf, is_text, content, node_size, is_textblock,
}

abbrev pub Span : Type 0
Span = ℕ × ℕ

unfoldable pub spans_from : ℕ → List Node → List Span
spans_from pos [] = []
spans_from pos (child ∷ rest) =
    (pos, pos + node_size child) ∷ spans_from (pos + node_size child) rest

unfoldable pub block_spans : Node → List Span
unfolding spans_from
block_spans doc = spans_from 0 (content doc)

-- The test of `_block_at` on one span.
abbrev pub holds_pos : ℕ → Bool → Span → Bool
holds_pos pos forward (start, stop) =
    (ltb start pos && ltb pos stop) || (pos == (if forward then start else stop))

unfoldable pub block_at_from : ℕ → List Span → ℕ → Bool → Option ℕ
block_at_from index [] pos forward = none
block_at_from index (s ∷ spans) pos forward =
    if holds_pos pos forward s then some index else block_at_from (suc index) spans pos forward

unfoldable pub block_at : List Span → ℕ → Bool → Option ℕ
unfolding block_at_from
block_at = block_at_from 0

abbrev pub NodePath : Type 0
NodePath = List ℕ

-- `[index, *found[0]], found[1]`
abbrev pub below : ℕ → Option (NodePath × ℕ) → Option (NodePath × ℕ)
below index none = none
below index (some (path, start)) = some (index ∷ path, start)

abbrev pub opaque_node : Node → Bool
opaque_node (text t marks) = true
opaque_node (elem k attrs c) = is_leaf k

-- `base` is the position at which the children of the node begin.
unfoldable mutual
  pub textblock_at : Node → ℕ → ℕ → Option (NodePath × ℕ)
  textblock_at (text t marks) pos base = none
  textblock_at (elem k attrs c) pos base = textblock_among c pos base 0

  pub textblock_among : Nodes → ℕ → ℕ → ℕ → Option (NodePath × ℕ)
  textblock_among nil pos child_pos index = none
  textblock_among (cons child rest) pos child_pos index =
      let inside = below index (textblock_at child pos (child_pos + 1)) in
      let later = textblock_among rest pos (child_pos + node_size child) (suc index) in
      if ltb child_pos pos && ltb pos (child_pos + node_size child)
      then (if is_textblock child
          then some (index ∷ [], child_pos)
          else if opaque_node child
          then none
          else inside)
      else later

-- `none` is Python's `IndexError`.
unfoldable mutual
  pub get : Node → NodePath → Option Node
  get n [] = some n
  get (text t marks) (i ∷ path) = none
  get (elem k attrs c) (i ∷ path) = get_among c i path

  pub get_among : Nodes → ℕ → NodePath → Option Node
  get_among nil i path = none
  get_among (cons n rest) zero path = get n path
  get_among (cons n rest) (suc i) path = get_among rest i path

abbrev pub with_content : (Nodes → Node) → Option Nodes → Option Node
with_content f none = none
with_content f (some c) = some (f c)

abbrev pub with_first : Nodes → Option Node → Option Nodes
with_first rest none = none
with_first rest (some n) = some (cons n rest)

abbrev pub with_rest : Node → Option Nodes → Option Nodes
with_rest n none = none
with_rest n (some c) = some (cons n c)

unfoldable mutual
  pub put : Node → NodePath → Node → Option Node
  put n [] replacement = some replacement
  put (text t marks) (i ∷ path) replacement = none
  put (elem k attrs c) (i ∷ path) replacement =
      with_content (elem k attrs) (put_among c i path replacement)

  pub put_among : Nodes → ℕ → NodePath → Node → Option Nodes
  put_among nil i path replacement = none
  put_among (cons n rest) zero path replacement = with_first rest (put n path replacement)
  put_among (cons n rest) (suc i) path replacement = with_rest n (put_among rest i path replacement)
