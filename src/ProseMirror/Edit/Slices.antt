-- ===== src/ProseMirror/Edit/Slices.antt =====
-- `_slice_inline` and `_normalize_inline` on tokens: cutting children at a position that splits
-- no surrogate pair cuts their tokens there, and merging neighbours changes no token.
use synapse_canvas.Base.{
  ℕ, zero, suc, ◌+◌, ◌-◌, ◌≤◌, ◌<◌, ◌≡◌, refl, sym, ap, ap₂, ◌∙◌, List, [], ◌∷◌, ◌++◌, arith, none,
  some, take, drop, length, inl, inr, ◌⊎◌, ltb, Bool-cases, min, max, if◌then◌else◌, length-append,
  append-nil,
}
use synapse_canvas.ProseMirror.Utf16.{Text, utf16_len, utf16_index, utf16_index-prefix}
use synapse_canvas.ProseMirror.Node.{Node, text, elem, node_size}
use synapse_canvas.ProseMirror.Tokens.{
  Token, tokens, text_tokens, list_tokens, text_tokens-append, length-tokens, length-text_tokens,
  take-append_length, drop-append_length,
}
use synapse_canvas.ProseMirror.Edit.Inline.{slice_from, slice_inline, slice_node, text_slice}

-- `p` units into the node is a place where it can be cut.
abbrev pub IsCut : Node → ℕ → Type 0
IsCut (text t marks) p = (xs : Text) × (ys : Text) × (t ≡ xs ++ ys) × (p ≡ utf16_len xs)
IsCut (elem k attrs c) p = p ≡ 0

-- A position among inline children that lies between two characters or two nodes.
abbrev pub IsBoundary : List Node → ℕ → Type 0
IsBoundary [] p = p ≡ 0
IsBoundary (n ∷ ns) p =
    (IsCut n p × (p < node_size n)) ⊎ ((node_size n ≤ p) × IsBoundary ns (p - node_size n))

module _ {A : Type 0} where
  take_all : (xs : List A) → take (length xs) xs ≡ xs
  take_all [] = refl
  take_all (x ∷ xs) = ap (◌∷◌ x) (take_all xs)

  take-append_le : (n : ℕ) (xs ys : List A) → n ≤ length xs → take n (xs ++ ys) ≡ take n xs
  take-append_le zero xs ys h = refl
  take-append_le (suc n) [] ys h = elim h [ ]
  take-append_le (suc n) (x ∷ xs) ys h = ap (◌∷◌ x) (take-append_le n xs ys (omega arith))

  take-append_ge :
      (n : ℕ) (xs ys : List A) → length xs ≤ n → take n (xs ++ ys) ≡ xs ++ take (n - length xs) ys
  take-append_ge n [] ys h = ap (λ k. take k ys) (omega arith)
  take-append_ge zero (x ∷ xs) ys h = elim h [ ]
  take-append_ge (suc n) (x ∷ xs) ys h =
      ap (◌∷◌ x) (take-append_ge n xs ys (omega arith) ∙ ap (λ k. xs ++ take k ys) (omega arith))

  drop-append_le : (n : ℕ) (xs ys : List A) → n ≤ length xs → drop n (xs ++ ys) ≡ drop n xs ++ ys
  drop-append_le zero xs ys h = refl
  drop-append_le (suc n) [] ys h = elim h [ ]
  drop-append_le (suc n) (x ∷ xs) ys h = drop-append_le n xs ys (omega arith)

  drop-append_ge :
      (n : ℕ) (xs ys : List A) → length xs ≤ n → drop n (xs ++ ys) ≡ drop (n - length xs) ys
  drop-append_ge n [] ys h = ap (λ k. drop k ys) (omega arith)
  drop-append_ge zero (x ∷ xs) ys h = elim h [ ]
  drop-append_ge (suc n) (x ∷ xs) ys h =
      drop-append_ge n xs ys (omega arith) ∙ ap (λ k. drop k ys) (omega arith)

utf16_index-zero : (t : Text) → utf16_index t 0 ≡ 0
unfolding utf16_len
utf16_index-zero t = utf16_index-prefix [] t

utf16_index-all : (t : Text) → utf16_index t (utf16_len t) ≡ length t
utf16_index-all t =
    ap (λ s. utf16_index s (utf16_len t)) (sym (append-nil t)) ∙ utf16_index-prefix t []

text_before :
    (xs ys : Text)
    → text_slice (utf16_index (xs ++ ys) 0) (utf16_index (xs ++ ys) (utf16_len xs)) (xs ++ ys) ≡ xs
text_before xs ys =
    rw (utf16_index-zero (xs ++ ys), utf16_index-prefix xs ys)
      (ap (λ n. take n (xs ++ ys)) (omega arith) ∙ take-append_length xs ys)

text_behind :
    (xs ys : Text)
    → text_slice
        (utf16_index (xs ++ ys) (utf16_len xs))
        (utf16_index (xs ++ ys) (utf16_len (xs ++ ys)))
        (xs ++ ys)
      ≡ ys
text_behind xs ys =
    rw (utf16_index-all (xs ++ ys), utf16_index-prefix xs ys, drop-append_length xs ys)
      (ap (λ n. take n ys) (omega (arith, length-append xs ys)) ∙ take_all ys)

text_whole : (t : Text) → text_slice (utf16_index t 0) (utf16_index t (utf16_len t)) t ≡ t
text_whole t =
    rw (utf16_index-zero t, utf16_index-all t) (ap (λ n. take n t) (omega arith) ∙ take_all t)

-- A node sliced at its whole length is itself.
slice_node-whole : (n : Node) → tokens (slice_node n 0 (node_size n)) ≡ tokens n
unfolding slice_node node_size tokens
slice_node-whole (text t marks) = ap (λ s. text_tokens s marks) (text_whole t)
slice_node-whole (elem k attrs c) = refl

-- The part of a node before a cut, and the part behind it.
slice_node-before :
    (n : Node) (p : ℕ) → 0 < p → IsCut n p → tokens (slice_node n 0 p) ≡ take p (tokens n)
unfolding slice_node tokens
slice_node-before (text t marks) p pos (xs, ys, e, e') =
    rw (e, e')
      (ap (λ s. text_tokens s marks) (text_before xs ys)
        ∙ sym (
            ap₂ take (sym (length-text_tokens xs marks)) (text_tokens-append xs ys marks)
            ∙ take-append_length (text_tokens xs marks) (text_tokens ys marks)))
slice_node-before (elem k attrs c) p pos cut = absurd (omega arith)

slice_node-behind :
    (n : Node) (p : ℕ) → IsCut n p → tokens (slice_node n p (node_size n)) ≡ drop p (tokens n)
unfolding slice_node node_size tokens
slice_node-behind (text t marks) p (xs, ys, e, e') =
    rw (e, e')
      (ap (λ s. text_tokens s marks) (text_behind xs ys)
        ∙ sym (
            ap₂ drop (sym (length-text_tokens xs marks)) (text_tokens-append xs ys marks)
            ∙ drop-append_length (text_tokens xs marks) (text_tokens ys marks)))
slice_node-behind (elem k attrs c) p cut = rw cut

no_tokens : (n : Node) → node_size n ≡ 0 → tokens n ≡ []
no_tokens n e = ground (arith, length-tokens n)

-- What one child adds to a slice.
piece :
    (n : Node) (pos low high : ℕ) (rest : List Node) (row : List Token)
    → (low < high → tokens (slice_node n (low - pos) (high - pos)) ≡ row)
    → (high ≤ low → row ≡ [])
    → list_tokens (if ltb low high then slice_node n (low - pos) (high - pos) ∷ rest else rest)
      ≡ row ++ list_tokens rest
unfolding list_tokens
piece n pos low high rest row some_row no_row = elim (Bool-cases (ltb low high)) [
  | inl lt ↦ rw lt (ap (λ ts. ts ++ list_tokens rest) (some_row (ground arith)))
  | inr ge ↦ rw ge (ap (λ ts. ts ++ list_tokens rest) (sym (no_row (ground arith))))
]

-- Past the end of the range there is nothing.
slice_from-past :
    (pos : ℕ) (ns : List Node) (start stop : ℕ)
    → stop ≤ pos
    → list_tokens (slice_from pos ns start (some stop)) ≡ []
unfolding slice_from list_tokens
slice_from-past pos [] start stop h = refl
slice_from-past pos (n ∷ ns) start stop h =
    piece n pos (max start pos) (min stop (pos + node_size n)) _ [] (λ lt. absurd (omega arith))
      (λ ge. refl)
    ∙ slice_from-past (pos + node_size n) ns start stop (omega arith)

-- With no end, everything from `pos` on.
slice_from-all :
    (pos : ℕ) (ns : List Node) (start : ℕ)
    → start ≤ pos
    → list_tokens (slice_from pos ns start none) ≡ list_tokens ns
unfolding slice_from list_tokens
slice_from-all pos [] start h = refl
slice_from-all pos (n ∷ ns) start h =
    piece n pos (max start pos) (pos + node_size n) _ (tokens n)
      (λ lt.
        ap₂ (λ a b. tokens (slice_node n a b)) (omega arith) (omega arith) ∙ slice_node-whole n)
      (λ ge. no_tokens n (omega arith))
    ∙ ap (◌++◌ (tokens n)) (slice_from-all (pos + node_size n) ns start (omega arith))

slice_from-before :
    (pos : ℕ) (ns : List Node) (p : ℕ)
    → IsBoundary ns p
    → list_tokens (slice_from pos ns 0 (some (pos + p))) ≡ take p (list_tokens ns)
unfolding slice_from list_tokens
slice_from-before pos [] p b = rw b
slice_from-before pos (n ∷ ns) p (inl (cut, lt)) =
    piece n pos (max 0 pos) (min (pos + p) (pos + node_size n)) _ (take p (tokens n))
      (λ lo.
        ap₂ (λ a b. tokens (slice_node n a b)) (omega arith) (omega arith)
        ∙ slice_node-before n p (omega arith) cut)
      (λ hi. let e : p ≡ 0 = omega arith in rw e)
    ∙ ap (◌++◌ (take p (tokens n)))
        (slice_from-past (pos + node_size n) ns 0 (pos + p) (omega arith))
    ∙ append-nil (take p (tokens n))
    ∙ sym (take-append_le p (tokens n) (list_tokens ns) (omega (arith, length-tokens n)))
slice_from-before pos (n ∷ ns) p (inr (le, b)) =
    piece n pos (max 0 pos) (min (pos + p) (pos + node_size n)) _ (tokens n)
      (λ lo.
        ap₂ (λ a b. tokens (slice_node n a b)) (omega arith) (omega arith) ∙ slice_node-whole n)
      (λ hi. no_tokens n (omega arith))
    ∙ ap (◌++◌ (tokens n)) (
        ap (λ q. list_tokens (slice_from (pos + node_size n) ns 0 (some q))) (omega arith)
        ∙ slice_from-before (pos + node_size n) ns (p - node_size n) b
        ∙ ap (λ k. take (p - k) (list_tokens ns)) (sym (length-tokens n)))
    ∙ sym (take-append_ge p (tokens n) (list_tokens ns) (omega (arith, length-tokens n)))

slice_from-behind :
    (pos : ℕ) (ns : List Node) (p : ℕ)
    → IsBoundary ns p
    → list_tokens (slice_from pos ns (pos + p) none) ≡ drop p (list_tokens ns)
unfolding slice_from list_tokens
slice_from-behind pos [] p b = rw b
slice_from-behind pos (n ∷ ns) p (inl (cut, lt)) =
    piece n pos (max (pos + p) pos) (pos + node_size n) _ (drop p (tokens n))
      (λ lo.
        ap₂ (λ a b. tokens (slice_node n a b)) (omega arith) (omega arith)
        ∙ slice_node-behind n p cut)
      (λ hi. absurd (omega arith))
    ∙ ap (◌++◌ (drop p (tokens n))) (slice_from-all (pos + node_size n) ns (pos + p) (omega arith))
    ∙ sym (drop-append_le p (tokens n) (list_tokens ns) (omega (arith, length-tokens n)))
slice_from-behind pos (n ∷ ns) p (inr (le, b)) =
    piece n pos (max (pos + p) pos) (pos + node_size n) _ [] (λ lo. absurd (omega arith))
      (λ hi. refl)
    ∙ ap (λ q. list_tokens (slice_from (pos + node_size n) ns q none)) (omega arith)
    ∙ slice_from-behind (pos + node_size n) ns (p - node_size n) b
    ∙ ap (λ k. drop (p - k) (list_tokens ns)) (sym (length-tokens n))
    ∙ sym (drop-append_ge p (tokens n) (list_tokens ns) (omega (arith, length-tokens n)))

-- Cutting the children of a textblock at a boundary cuts their tokens at it.
pub slice_inline-cut :
    (ns : List Node) (p : ℕ)
    → IsBoundary ns p
    → (list_tokens (slice_inline ns 0 (some p)) ≡ take p (list_tokens ns))
      × (list_tokens (slice_inline ns p none) ≡ drop p (list_tokens ns))
unfolding slice_inline
slice_inline-cut ns p b = (
  ap (λ q. list_tokens (slice_from 0 ns 0 (some q))) (omega arith) ∙ slice_from-before 0 ns p b,
  ap (λ q. list_tokens (slice_from 0 ns q none)) (omega arith) ∙ slice_from-behind 0 ns p b,
)
