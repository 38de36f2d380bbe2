-- ===== src/ProseMirror/Tokens.antt =====
-- ProseMirror's position model, as an account of documents that does not use `node_size`: a node
-- is a row of tokens, one for each UTF-16 unit of text with its marks, one for a leaf, and an
-- opening and a closing one round the content of any other node. A position is an index into the
-- row, and a ReplaceStep cuts the row at two of them.
use synapse_canvas.Base.{
  ℕ, ◌+◌, ◌-◌, ◌/◌, ◌%◌, ◌≡◌, refl, ap, sym, ◌∙◌, List, [], ◌∷◌, ◌++◌, arith, true, false, ltb,
  if◌then◌else◌, length, take, drop, length-append, append_assoc,
}
use synapse_canvas.ProseMirror.Utf16.{Text, utf16_len}
use synapse_canvas.ProseMirror.Node.{
  Node, Nodes, Kind, Attrs, text, elem, nil, cons, is_leaf, to_list, content, node_size, nodes_size,
  list_size, content_size,
}

pub data Token : Type 0 where
  unit : ℕ → List ℕ → Token
  leaf : Kind → Attrs → Token
  opens : Kind → Attrs → Token
  closes : Kind → Token

-- One unit, or the two surrogates.
unfoldable pub char_tokens : ℕ → List ℕ → List Token
char_tokens c marks =
    if ltb 0xFFFF c
    then unit (0xD800 + (c - 0x10000) / 1024) marks
      ∷ unit (0xDC00 + (c - 0x10000) % 1024) marks
      ∷ []
    else unit c marks ∷ []

unfoldable pub text_tokens : Text → List ℕ → List Token
text_tokens [] marks = []
text_tokens (c ∷ t) marks = char_tokens c marks ++ text_tokens t marks

unfoldable mutual
  pub tokens : Node → List Token
  tokens (text t marks) = text_tokens t marks
  tokens (elem k attrs c) = elim (is_leaf k) [
    | true ↦ leaf k attrs ∷ []
    | false ↦ opens k attrs ∷ (nodes_tokens c ++ closes k ∷ [])
  ]

  pub nodes_tokens : Nodes → List Token
  nodes_tokens nil = []
  nodes_tokens (cons n ns) = tokens n ++ nodes_tokens ns

pub tokens-elem :
    (k : Kind) (attrs : Attrs) (c : Nodes)
    → is_leaf k ≡ false
    → tokens (elem k attrs c) ≡ opens k attrs ∷ (nodes_tokens c ++ closes k ∷ [])
unfolding tokens
tokens-elem k attrs c inner_node = ground arith

unfoldable pub list_tokens : List Node → List Token
list_tokens [] = []
list_tokens (n ∷ ns) = tokens n ++ list_tokens ns

-- The tokens between a node's own opening and closing one.
unfoldable pub content_tokens : Node → List Token
unfolding list_tokens
content_tokens n = list_tokens (content n)

-- What a peer does with a ReplaceStep.
abbrev pub replay {ℓ} : {A : Type ℓ} → ℕ → ℕ → List A → List A → List A
replay start stop slice ts = take start ts ++ (slice ++ drop stop ts)

pub list_tokens-to_list : (c : Nodes) → list_tokens (to_list c) ≡ nodes_tokens c
unfolding list_tokens nodes_tokens
list_tokens-to_list nil = refl
list_tokens-to_list (cons n ns) = ap (◌++◌ (tokens n)) (list_tokens-to_list ns)

pub list_tokens-append :
    (xs ys : List Node) → list_tokens (xs ++ ys) ≡ list_tokens xs ++ list_tokens ys
unfolding list_tokens
list_tokens-append [] ys = refl
list_tokens-append (n ∷ xs) ys = simp (list_tokens-append xs ys, append_assoc)

pub text_tokens-append :
    (xs ys : Text) (marks : List ℕ)
    → text_tokens (xs ++ ys) marks ≡ text_tokens xs marks ++ text_tokens ys marks
unfolding text_tokens
text_tokens-append [] ys marks = refl
text_tokens-append (c ∷ xs) ys marks = simp (text_tokens-append xs ys marks, append_assoc)

pub length-text_tokens : (t : Text) (marks : List ℕ) → length (text_tokens t marks) ≡ utf16_len t
unfolding text_tokens utf16_len char_tokens
length-text_tokens [] marks = refl
length-text_tokens (c ∷ t) marks =
    ground
      (arith, length-append (char_tokens c marks) (text_tokens t marks), length-text_tokens t marks)

mutual
  unfolding tokens node_size

  length-tokens_step : (n : Node) → length (tokens n) ≡ node_size n
  length-tokens_step (text t marks) = length-text_tokens t marks
  length-tokens_step (elem k attrs c) =
      ground (arith, length-append (nodes_tokens c) (closes k ∷ []), length-nodes_tokens c)

  length-nodes_tokens : (c : Nodes) → length (nodes_tokens c) ≡ nodes_size c
  length-nodes_tokens nil = refl
  length-nodes_tokens (cons n ns) = ground (
    arith,
    length-append (tokens n) (nodes_tokens ns),
    length-tokens_step n,
    length-nodes_tokens ns,
  )

-- `node_size` is the number of tokens, surrogates and brackets included, for every node.
pub length-tokens : (n : Node) → length (tokens n) ≡ node_size n
length-tokens n = length-tokens_step n

pub length-list_tokens : (ns : List Node) → length (list_tokens ns) ≡ list_size ns
unfolding list_tokens list_size
length-list_tokens [] = refl
length-list_tokens (n ∷ ns) =
    omega (arith, length-append (tokens n) (list_tokens ns), length-tokens n, length-list_tokens ns)

pub length-content_tokens : (n : Node) → length (content_tokens n) ≡ content_size n
unfolding content_tokens content_size
length-content_tokens n = length-list_tokens (content n)

-- Cutting a row that is given in three parts.
module _ {ℓ} {A : Type ℓ} where
  pub take-append_length : (xs ys : List A) → take (length xs) (xs ++ ys) ≡ xs
  take-append_length [] ys = refl
  take-append_length (x ∷ xs) ys = ap (◌∷◌ x) (take-append_length xs ys)

  pub drop-append_length : (xs ys : List A) → drop (length xs) (xs ++ ys) ≡ ys
  drop-append_length [] ys = refl
  drop-append_length (x ∷ xs) ys = drop-append_length xs ys

  pub replay-parts :
      (pre old post slice : List A) (start stop : ℕ)
      → start ≡ length pre
      → stop ≡ length pre + length old
      → replay start stop slice (pre ++ (old ++ post)) ≡ pre ++ (slice ++ post)
  replay-parts pre old post slice start stop p q =
      let e : stop ≡ length (pre ++ old) = omega (arith, length-append {ℓ} pre old) in
      rw (p, e, take-append_length pre (old ++ post))
        (ap (λ r. pre ++ (slice ++ r))
          (ap (drop (length (pre ++ old))) (sym (append_assoc pre old post))
            ∙ drop-append_length (pre ++ old) post))
