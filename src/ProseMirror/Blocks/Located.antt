-- ===== src/ProseMirror/Blocks/Located.antt =====
-- `_textblock_at`, `_get` and `_put`: a hit splits the document's tokens round one textblock, and
-- a write at the path replaces exactly the tokens of that block.
use mathlib.Core.Option
use synapse_canvas.Base.{
  ℕ, zero, suc, ◌+◌, ◌<◌, ◌≡◌, refl, sym, ap, subst, ◌∙◌, List, [], ◌∷◌, ◌++◌, arith, true, false,
  ◌&&◌, Option, none, some, length, Bool-cases, inl, inr, ltb, length-append, append_assoc,
}
use synapse_canvas.ProseMirror.Node.{
  Node, Nodes, Kind, Attrs, text, elem, nil, cons, is_leaf, node_size, is_textblock,
}
use synapse_canvas.ProseMirror.Tokens.{
  Token, opens, closes, tokens, nodes_tokens, content_tokens, length-tokens, list_tokens-to_list,
  tokens-elem,
}
use synapse_canvas.ProseMirror.Blocks.{
  NodePath, below, opaque_node, textblock_at, textblock_among, get, get_among, put, put_among,
  with_content, with_first, with_rest,
}

-- The position of the node at a path, from the start of the children.
mutual
  pub offset : Node → NodePath → ℕ
  offset n [] = 0
  offset (text t marks) (i ∷ path) = 0
  offset (elem k attrs c) (i ∷ path) = offset_among c i path

  pub offset_among : Nodes → ℕ → NodePath → ℕ
  offset_among nil i path = 0
  offset_among (cons n rest) zero [] = 0
  offset_among (cons n rest) zero (i ∷ path) = suc (offset n (i ∷ path))
  offset_among (cons n rest) (suc i) path = node_size n + offset_among rest i path

-- A textblock in a row of tokens that begins at `base`, round a position strictly inside it.
pub record Found (pos base : ℕ) (row : List Token) (got : Option Node)
    (puts : Node → Option (List Token)) (off start : ℕ) : Type 0 where
  pub block : Node
  pub pre : List Token
  pub post : List Token
  pub is_got : got ≡ some block
  pub is_block : is_textblock block ≡ true
  pub row_parts : row ≡ pre ++ (tokens block ++ post)
  pub start_pre : start ≡ base + length pre
  pub start_off : start ≡ base + off
  pub after_start : start < pos
  pub before_end : pos < start + node_size block
  pub put_parts : (r : Node) → puts r ≡ some (pre ++ (tokens r ++ post))

abbrev nodes_after : Nodes → ℕ → NodePath → Node → Option (List Token)
nodes_after c j path r = Option.map nodes_tokens (put_among c j path r)

abbrev FoundAmong : Nodes → ℕ → ℕ → ℕ → Option (NodePath × ℕ) → Type 0
FoundAmong c pos base index none = Unit
FoundAmong c pos base index (some (path, start)) =
    (j : ℕ) × (inner : NodePath) × (path ≡ (index + j) ∷ inner)
    × Found pos base (nodes_tokens c) (get_among c j inner) (nodes_after c j inner)
        (offset_among c j inner) start

with_rest-tokens :
    (n : Node) (o : Option Nodes) (row : List Token)
    → Option.map nodes_tokens o ≡ some row
    → Option.map nodes_tokens (with_rest n o) ≡ some (tokens n ++ row)
unfolding nodes_tokens
with_rest-tokens n none row h = cc
with_rest-tokens n (some c) row h = ground arith

inside_row :
    (k : Kind) (attrs : Attrs) (pre block post row after : List Token)
    → row ≡ pre ++ (block ++ post)
    → opens k attrs ∷ ((row ++ closes k ∷ []) ++ after)
      ≡ opens k attrs ∷ (pre ++ (block ++ (post ++ (closes k ∷ after))))
inside_row k attrs pre block post row after h = simp (h, append_assoc)

inside_put :
    (k : Kind) (attrs : Attrs) (rest : Nodes) (o : Option Nodes) (pre block post : List Token)
    → is_leaf k ≡ false
    → Option.map nodes_tokens o ≡ some (pre ++ (block ++ post))
    → Option.map nodes_tokens (with_first rest (with_content (elem k attrs) o))
      ≡ some (opens k attrs ∷ (pre ++ (block ++ (post ++ (closes k ∷ nodes_tokens rest)))))
unfolding nodes_tokens
inside_put k attrs rest none pre block post leaf h = cc
inside_put k attrs rest (some c) pre block post leaf h = rw (tokens-elem k attrs c leaf) (
    ap some (inside_row k attrs pre block post (nodes_tokens c) (nodes_tokens rest) (ground arith)))

-- The block is a child itself.
here :
    (n : Node) (rest : Nodes) (pos base index : ℕ)
    → is_textblock n ≡ true
    → base < pos
    → pos < base + node_size n
    → FoundAmong (cons n rest) pos base index (some (index ∷ [], base))
unfolding nodes_tokens put_among put get_among get offset
here n rest pos base index b lo hi = (
  0,
  [],
  ground arith,
  record {
    block = n;
    pre = [];
    post = nodes_tokens rest;
    is_got = refl;
    is_block = b;
    row_parts = refl;
    start_pre = omega arith;
    start_off = omega arith;
    after_start = lo;
    before_end = hi;
    put_parts = λ r. refl;
  },
)

-- The block is in a later child.
later :
    (n : Node) (rest : Nodes) (pos base index : ℕ) (r : Option (NodePath × ℕ))
    → FoundAmong rest pos (base + node_size n) (suc index) r
    → FoundAmong (cons n rest) pos base index r
unfolding nodes_tokens put_among get_among offset
later n rest pos base index none f = tt
later n rest pos base index (some (path, start)) (j, inner, e, f) = (
  suc j,
  inner,
  ground arith,
  record {
    block = f.block;
    pre = tokens n ++ f.pre;
    post = f.post;
    is_got = f.is_got;
    is_block = f.is_block;
    row_parts = ap (◌++◌ (tokens n)) f.row_parts ∙ sym (append_assoc (tokens n) f.pre _);
    start_pre = omega (arith, f.start_pre, length-append (tokens n) f.pre, length-tokens n);
    start_off = omega (arith, f.start_off);
    after_start = f.after_start;
    before_end = f.before_end;
    put_parts = λ r.
        with_rest-tokens n _ _ (f.put_parts r) ∙ ap some (sym (append_assoc (tokens n) f.pre _));
  },
)

-- The block is inside a child that is no leaf.
inside :
    (k : Kind) (attrs : Attrs) (c rest : Nodes) (pos base index : ℕ) (r : Option (NodePath × ℕ))
    → is_leaf k ≡ false
    → FoundAmong c pos (base + 1) 0 r
    → FoundAmong (cons (elem k attrs c) rest) pos base index (below index r)
unfolding nodes_tokens put_among put get_among get offset
inside k attrs c rest pos base index none leaf f = tt
inside k attrs c rest pos base index (some (path, start)) leaf (j, inner, e, f) = (
  0,
  j ∷ inner,
  ground arith,
  record {
    block = f.block;
    pre = opens k attrs ∷ f.pre;
    post = f.post ++ (closes k ∷ nodes_tokens rest);
    is_got = f.is_got;
    is_block = f.is_block;
    row_parts = rw (tokens-elem k attrs c leaf) (
        inside_row k attrs f.pre (tokens f.block) f.post (nodes_tokens c) (nodes_tokens rest)
          f.row_parts);
    start_pre = omega (arith, f.start_pre);
    start_off = omega (arith, f.start_off);
    after_start = f.after_start;
    before_end = f.before_end;
    put_parts = λ r.
        inside_put k attrs rest (put_among c j inner r) f.pre (tokens r) f.post leaf
          (f.put_parts r);
  },
)

-- The search, child by child. What is inside a child and what comes later are found already.
found_step :
    (n : Node) (rest : Nodes) (pos base index : ℕ)
    → (opaque_node n ≡ false
        → FoundAmong (cons n rest) pos base index (below index (textblock_at n pos (base + 1))))
    → FoundAmong rest pos
        (base + node_size n)
        (suc index)
        (textblock_among rest pos (base + node_size n) (suc index))
    → FoundAmong (cons n rest) pos base index (textblock_among (cons n rest) pos base index)
unfolding textblock_among
found_step n rest pos base index deep next =
    elim (Bool-cases (ltb base pos && ltb pos (base + node_size n))) [
      | inr out ↦ rw out (later n rest pos base index _ next)
      | inl within ↦ rw within (elim (Bool-cases (is_textblock n)) [
        | inl b ↦ rw b (here n rest pos base index b (ground arith) (ground arith))
        | inr nb ↦
            rw nb (elim (Bool-cases (opaque_node n)) [ inl o ↦ rw o tt | inr t ↦ rw t (deep t) ])
      ])
    ]

textblock_among-Found :
    (c : Nodes) (pos base index : ℕ)
    → FoundAmong c pos base index (textblock_among c pos base index)
unfolding textblock_among textblock_at
textblock_among-Found nil pos base index = tt
textblock_among-Found (cons (text t marks) rest) pos base index =
    found_step (text t marks) rest pos base index (λ h. cc)
      (textblock_among-Found rest pos _ (suc index))
textblock_among-Found (cons (elem k attrs c) rest) pos base index =
    found_step (elem k attrs c) rest pos base index
      (λ h. inside k attrs c rest pos base index _ h (textblock_among-Found c pos (base + 1) 0))
      (textblock_among-Found rest pos _ (suc index))

put-content_tokens :
    (k : Kind) (attrs : Attrs) (o : Option Nodes)
    → Option.map content_tokens (with_content (elem k attrs) o) ≡ Option.map nodes_tokens o
unfolding content_tokens
put-content_tokens k attrs none = refl
put-content_tokens k attrs (some c) = ap some (list_tokens-to_list c)

-- The textblock that holds a position: it is read at its path, it lies round the position, and
-- writing another node at the path replaces its tokens and no other.
pub textblock_at-Found :
    (n : Node) (pos : ℕ) (path : NodePath) (start : ℕ)
    → textblock_at n pos 0 ≡ some (path, start)
    → Found pos 0
        (content_tokens n)
        (get n path)
        (λ r. Option.map content_tokens (put n path r))
        (offset n path)
        start
unfolding textblock_at content_tokens get put offset
textblock_at-Found (text t marks) pos path start h = cc
textblock_at-Found (elem k attrs c) pos path start h =
    let (j, inner, e, f) = subst (FoundAmong c pos 0 0) h (textblock_among-Found c pos 0 0) in
    let at : path ≡ j ∷ inner = ground arith in
    record {
      block = f.block;
      pre = f.pre;
      post = f.post;
      is_got = rw at f.is_got;
      is_block = f.is_block;
      row_parts = list_tokens-to_list c ∙ f.row_parts;
      start_pre = f.start_pre;
      start_off = rw at f.start_off;
      after_start = f.after_start;
      before_end = f.before_end;
      put_parts = λ r. rw at (put-content_tokens k attrs (put_among c j inner r) ∙ f.put_parts r);
    }
