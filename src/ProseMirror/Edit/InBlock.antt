-- ===== src/ProseMirror/Edit/InBlock.antt =====
-- `replace_selection` inside one textblock: the step replays to the stored document.
use mathlib.Core.Option
use synapse_canvas.Base.{
  ℕ, zero, suc, ◌+◌, ◌-◌, ◌≤◌, ◌<◌, ◌≡◌, refl, sym, ap, ap₂, ◌∙◌, List, [], ◌∷◌, ◌++◌, arith, false,
  Option, none, some, take, drop, length, inl, inr, Bool-cases, length-append, append_assoc,
  take-append-drop, length-take, length-drop,
}
use synapse_canvas.ProseMirror.Utf16.{Text}
use synapse_canvas.ProseMirror.Node.{
  Node, Nodes, Kind, Attrs, elem, list_size, to_list, of_list, node_size, is_leaf,
  list_size-to_list, to_list-of_list,
}
use synapse_canvas.ProseMirror.Tokens.{
  Token, opens, closes, tokens, list_tokens, content_tokens, replay, replay-parts, tokens-elem,
  list_tokens-to_list, length-list_tokens, list_tokens-append,
}
use synapse_canvas.ProseMirror.Blocks.{NodePath, textblock_at, get, put}
use synapse_canvas.ProseMirror.Blocks.Located.{textblock_at-Found}
use synapse_canvas.ProseMirror.Edit.Inline.{slice_inline}
use synapse_canvas.ProseMirror.Edit.Slices.{IsBoundary, slice_inline-cut}
use synapse_canvas.ProseMirror.Edit.Merging.{normalize_inline-tokens}
use synapse_canvas.ProseMirror.Edit.Select.{path_eq_sound}
use synapse_canvas.ProseMirror.Edit.{
  Edit, replace_selection, replace_in_block, replacement, merge_inline, same_block, path_eq,
}

module _ {A : Type 0} where
  drop-nil : (n : ℕ) → drop {A = A} n [] ≡ []
  drop-nil zero = refl
  drop-nil (suc n) = refl

  drop-drop : (m n : ℕ) (xs : List A) → drop m (drop n xs) ≡ drop (n + m) xs
  drop-drop m zero xs = ap (λ k. drop k xs) (omega arith)
  drop-drop m (suc n) [] = drop-nil m ∙ sym (drop-nil (suc n + m))
  drop-drop m (suc n) (x ∷ xs) =
      drop-drop m n xs ∙ ap (λ k. drop k (x ∷ xs)) {x = suc (n + m)} (omega arith)

  -- A row cut at two places.
  three_parts :
      (low high : ℕ) (xs : List A)
      → low ≤ high
      → xs ≡ take low xs ++ (take (high - low) (drop low xs) ++ drop high xs)
  three_parts low high xs h =
      let e : low + (high - low) ≡ high = omega arith in
      sym (take-append-drop low xs)
      ∙ ap (◌++◌ (take low xs)) (
          sym (take-append-drop (high - low) (drop low xs))
          ∙ ap (◌++◌ (take (high - low) (drop low xs)))
              (drop-drop (high - low) low xs ∙ ap (λ k. drop k xs) e))

  -- Replacing the middle of a bracketed row.
  replay_inside :
      (pre post xs ins : List A) (o c : A) (low high : ℕ)
      → low ≤ high
      → high ≤ length xs
      → pre ++ ((o ∷ ((take low xs ++ (ins ++ drop high xs)) ++ c ∷ [])) ++ post)
        ≡ replay
            (length pre + 1 + low)
            (length pre + 1 + high)
            ins
            (pre ++ ((o ∷ (xs ++ c ∷ [])) ++ post))
  replay_inside pre post xs ins o c low high h k =
      let a = take low xs in
      let b = take (high - low) (drop low xs) in
      let d = drop high xs in
      let front = pre ++ (o ∷ a) in
      let back = d ++ (c ∷ post) in
      let cut =
        replay-parts front b back ins (length pre + 1 + low) (length pre + 1 + high)
          (omega (arith, length-append {0} pre (o ∷ a), length-take {0} low xs))
          (omega (
            arith,
            length-append {0} pre (o ∷ a),
            length-take {0} low xs,
            length-take {0} (high - low) (drop low xs),
            length-drop {0} low xs,
          )) in
      let whole : pre ++ ((o ∷ (xs ++ c ∷ [])) ++ post) ≡ front ++ (b ++ back) =
        ap (λ r. pre ++ ((o ∷ (r ++ c ∷ [])) ++ post)) (three_parts low high xs h)
        ∙ (simp append_assoc) in
      rw whole ((simp append_assoc) ∙ sym cut)

-- Both ends lie in the block at the path.
same_block_sound :
    (a b : Option (NodePath × ℕ)) (path : NodePath) (start : ℕ)
    → same_block a b ≡ some (path, start)
    → (a ≡ some (path, start)) × (t : ℕ) × (b ≡ some (path, t))
same_block_sound none b path start h = cc
same_block_sound (some (p, s)) none path start h = cc
same_block_sound (some (p, s)) (some (q, t)) path start h = elim (Bool-cases (path_eq p q)) [
  | inl e ↦ (ground arith, t, ground (arith, path_eq_sound p q e))
  | inr e ↦ ground arith
]

IsBoundary-le : (ns : List Node) (p : ℕ) → IsBoundary ns p → p ≤ list_size ns
unfolding list_size
IsBoundary-le [] p b = omega arith
IsBoundary-le (n ∷ ns) p (inl (cut, lt)) = omega arith
IsBoundary-le (n ∷ ns) p (inr (le, b)) = omega (arith, IsBoundary-le ns (p - node_size n) b)

merge_inline-tokens :
    (ns inserted : List Node) (low high : ℕ)
    → IsBoundary ns low
    → IsBoundary ns high
    → list_tokens (merge_inline ns low high inserted)
      ≡ take low (list_tokens ns) ++ (list_tokens inserted ++ drop high (list_tokens ns))
unfolding merge_inline
merge_inline-tokens ns inserted low high b b' =
    normalize_inline-tokens _
    ∙ list_tokens-append (slice_inline ns 0 (some low)) (inserted ++ slice_inline ns high none)
    ∙ ap₂ ◌++◌ (slice_inline-cut ns low b).0 (
        list_tokens-append inserted (slice_inline ns high none)
        ∙ ap (◌++◌ (list_tokens inserted)) (slice_inline-cut ns high b').1)

-- The children's tokens between the brackets of a block that is no leaf.
block_tokens :
    (k : Kind) (attrs : Attrs) (c : Nodes)
    → is_leaf k ≡ false
    → tokens (elem k attrs c) ≡ opens k attrs ∷ (list_tokens (to_list c) ++ closes k ∷ [])
block_tokens k attrs c inner =
    tokens-elem k attrs c inner
    ∙ ap (λ ts. opens k attrs ∷ (ts ++ closes k ∷ [])) (sym (list_tokens-to_list c))

new_block_tokens :
    (k : Kind) (attrs : Attrs) (ns : List Node)
    → is_leaf k ≡ false
    → tokens (elem k attrs (of_list ns)) ≡ opens k attrs ∷ (list_tokens ns ++ closes k ∷ [])
new_block_tokens k attrs ns inner =
    block_tokens k attrs (of_list ns) inner
    ∙ ap (λ m. opens k attrs ∷ (list_tokens m ++ closes k ∷ [])) (to_list-of_list ns)

block_size :
    (k : Kind) (attrs : Attrs) (c : Nodes)
    → is_leaf k ≡ false
    → node_size (elem k attrs c) ≡ list_size (to_list c) + 2
unfolding node_size
block_size k attrs c inner = ground (arith, list_size-to_list c)

-- What the edit does at a textblock that `Found` has located.
module _ (doc : Node) (path : NodePath) (s start stop : ℕ) (reply : Text) (k : Kind) (attrs : Attrs)
    (c : Nodes) where
  abbrev kept : List Node
  kept = to_list c

  abbrev inserts : List Node
  inserts = replacement (elem k attrs c) kept (start - s - 1) (stop - s - 1) reply

  abbrev new_block : Node
  new_block = elem k attrs (of_list (merge_inline kept (start - s - 1) (stop - s - 1) inserts))

  edited :
      (pre post : List Token) (result : Node)
      → is_leaf k ≡ false
      → s ≡ length pre
      → s < start
      → start ≤ stop
      → stop < s + node_size (elem k attrs c)
      → IsBoundary kept (start - s - 1)
      → IsBoundary kept (stop - s - 1)
      → content_tokens doc ≡ pre ++ (tokens (elem k attrs c) ++ post)
      → content_tokens result ≡ pre ++ (tokens new_block ++ post)
      → content_tokens result ≡ replay start stop (list_tokens inserts) (content_tokens doc)
  edited pre post result inner at lo le hi b b' old new =
      let low = start - s - 1 in
      let high = stop - s - 1 in
      let size = block_size k attrs c inner in
      let p : length pre + 1 + low ≡ start = omega arith in
      let q : length pre + 1 + high ≡ stop = omega arith in
      new
      ∙ ap (λ ts. pre ++ (ts ++ post))
          (new_block_tokens k attrs (merge_inline kept low high inserts) inner
            ∙ ap (λ ts. opens k attrs ∷ (ts ++ closes k ∷ []))
                (merge_inline-tokens kept inserts low high b b'))
      ∙ replay_inside pre post (list_tokens kept) (list_tokens inserts) (opens k attrs) (closes k)
          low high (omega arith)
          (omega (arith, length-list_tokens kept, IsBoundary-le kept high b'))
      ∙ ap₂
          (λ x y.
            replay x y (list_tokens inserts)
              (pre ++ ((opens k attrs ∷ (list_tokens kept ++ closes k ∷ [])) ++ post)))
          p q
      ∙ ap (λ ts. replay start stop (list_tokens inserts) (pre ++ (ts ++ post)))
          (sym (block_tokens k attrs c inner))
      ∙ ap (replay start stop (list_tokens inserts)) (sym old)

map-eq-some :
    {A B : Type 0} (f : A → B) (o : Option A) (b : B)
    → Option.map f o ≡ some b
    → (a : A) × (o ≡ some a) × (f a ≡ b)
map-eq-some f none b h = cc
map-eq-some f (some a) b h = (a, refl, ground arith)

replace_selection-within :
    (doc : Node) (path : NodePath) (s start stop : ℕ) (reply : Text) (k : Kind) (attrs : Attrs)
    (c : Nodes) (result : Node)
    → same_block (textblock_at doc start 0) (textblock_at doc stop 0) ≡ some (path, s)
    → get doc path ≡ some (elem k attrs c)
    → put doc path (new_block doc path s start stop reply k attrs c) ≡ some result
    → replace_selection doc start stop reply
      ≡ some (record {
        result = result;
        step_from = start;
        step_to = stop;
        slice = inserts doc path s start stop reply k attrs c;
      })
unfolding replace_selection replace_in_block
replace_selection-within doc path s start stop reply k attrs c result within got done =
    rw (within, replace_selection, got, done) refl

-- A selection inside one textblock that is no leaf, cut at places that split no surrogate pair:
-- there is an edit, its step covers exactly the selection, and replaying the step on the tokens of
-- the old document gives the tokens of the stored one.
pub replace_selection-replay_block :
    (doc : Node) (path : NodePath) (s start stop : ℕ) (reply : Text) (k : Kind) (attrs : Attrs)
    (c : Nodes)
    → same_block (textblock_at doc start 0) (textblock_at doc stop 0) ≡ some (path, s)
    → get doc path ≡ some (elem k attrs c)
    → is_leaf k ≡ false
    → start ≤ stop
    → IsBoundary (to_list c) (start - s - 1)
    → IsBoundary (to_list c) (stop - s - 1)
    → (e : Edit) × (replace_selection doc start stop reply ≡ some e)
      × (e.step_from ≡ start)
      × (e.step_to ≡ stop)
      × (content_tokens e.result
          ≡ replay e.step_from e.step_to (list_tokens e.slice) (content_tokens doc))
replace_selection-replay_block doc path s start stop reply k attrs c within got inner le b b' =
    let (first, t, last) = same_block_sound _ _ path s within in
    let f = textblock_at-Found doc start path s first in
    let g = textblock_at-Found doc stop path t last in
    let same : f.block ≡ elem k attrs c = ground (arith, f.is_got) in
    let same' : g.block ≡ elem k attrs c = ground (arith, g.is_got) in
    let place : t ≡ s = g.start_off ∙ sym f.start_off in
    let (result, done, row) =
      map-eq-some content_tokens _ _
        (f.put_parts (new_block doc path s start stop reply k attrs c)) in
    (
      record {
        result = result;
        step_from = start;
        step_to = stop;
        slice = inserts doc path s start stop reply k attrs c;
      },
      replace_selection-within doc path s start stop reply k attrs c result within got done,
      refl,
      refl,
      edited doc path s start stop reply k attrs c f.pre f.post result inner
          (omega (arith, f.start_pre)) f.after_start le
          (omega (arith, g.before_end, place, ap node_size same')) b b'
          (f.row_parts ∙ ap (λ n. f.pre ++ (tokens n ++ f.post)) same) row,
    )
