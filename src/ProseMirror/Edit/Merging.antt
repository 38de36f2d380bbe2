-- ===== src/ProseMirror/Edit/Merging.antt =====
-- `_normalize_inline` of api/services/prosemirror.py on tokens.
use mathlib.Core.List.{reverse, reverse-cons}
use synapse_canvas.Base.{
  ℕ, ◌≡◌, refl, sym, ap, ◌∙◌, List, [], ◌∷◌, ◌++◌, arith, true, inl, inr, Bool-cases, append_assoc,
  append-nil,
}
use synapse_canvas.ProseMirror.Utf16.{Text}
use synapse_canvas.ProseMirror.Node.{Node, text, elem}
use synapse_canvas.ProseMirror.Tokens.{
  tokens, text_tokens, list_tokens, text_tokens-append, list_tokens-append,
}
use synapse_canvas.ProseMirror.Edit.Inline.{push_inline, normalize_from, normalize_inline, marks_eq}

marks_eq_sound : (ms ns : List ℕ) → marks_eq ms ns ≡ true → ms ≡ ns
marks_eq_sound [] [] h = refl
marks_eq_sound [] (n ∷ ns) h = cc
marks_eq_sound (m ∷ ms) [] h = cc
marks_eq_sound (m ∷ ms) (n ∷ ns) h = ground (arith, marks_eq_sound ms ns)

list_tokens-snoc :
    (out : List Node) (n : Node)
    → list_tokens (reverse (n ∷ out)) ≡ list_tokens (reverse out) ++ tokens n
unfolding list_tokens
list_tokens-snoc out n =
    ap list_tokens (reverse-cons n out)
    ∙ list_tokens-append (reverse out) (n ∷ [])
    ∙ ap (◌++◌ (list_tokens (reverse out))) (append-nil (tokens n))

merged_tokens :
    (out : List Node) (s t : Text) (ms marks : List ℕ)
    → ms ≡ marks
    → list_tokens (reverse out) ++ text_tokens (s ++ t) ms
      ≡ list_tokens (reverse (text s ms ∷ out)) ++ text_tokens t marks
unfolding tokens
merged_tokens out s t ms marks e =
    ap (◌++◌ (list_tokens (reverse out)))
      (text_tokens-append s t ms ∙ ap (λ m. text_tokens s ms ++ text_tokens t m) e)
    ∙ sym (append_assoc (list_tokens (reverse out)) (text_tokens s ms) (text_tokens t marks))
    ∙ ap (λ ts. ts ++ text_tokens t marks) (sym (list_tokens-snoc out (text s ms)))

push_inline-tokens :
    (out : List Node) (n : Node)
    → list_tokens (reverse (push_inline out n)) ≡ list_tokens (reverse out) ++ tokens n
unfolding push_inline tokens text_tokens
push_inline-tokens [] (text [] marks) = sym (append-nil _)
push_inline-tokens (o ∷ out) (text [] marks) = sym (append-nil _)
push_inline-tokens [] (text (c ∷ t) marks) = list_tokens-snoc [] (text (c ∷ t) marks)
push_inline-tokens (elem k attrs x ∷ out) (text (c ∷ t) marks) =
    list_tokens-snoc (elem k attrs x ∷ out) (text (c ∷ t) marks)
push_inline-tokens (text s ms ∷ out) (text (c ∷ t) marks) = elim (Bool-cases (marks_eq ms marks)) [
  | inl same ↦
      rw (same, push_inline)
        (list_tokens-snoc out (text (s ++ c ∷ t) ms)
          ∙ merged_tokens out s (c ∷ t) ms marks (marks_eq_sound ms marks same))
  | inr apart ↦ rw (apart, push_inline) (list_tokens-snoc (text s ms ∷ out) (text (c ∷ t) marks))
]
push_inline-tokens [] (elem k attrs x) = list_tokens-snoc [] (elem k attrs x)
push_inline-tokens (o ∷ out) (elem k attrs x) = list_tokens-snoc (o ∷ out) (elem k attrs x)

normalize_from-tokens :
    (out nodes : List Node)
    → list_tokens (normalize_from out nodes) ≡ list_tokens (reverse out) ++ list_tokens nodes
unfolding normalize_from list_tokens
normalize_from-tokens out [] = sym (append-nil _)
normalize_from-tokens out (n ∷ nodes) =
    normalize_from-tokens (push_inline out n) nodes
    ∙ ap (λ ts. ts ++ list_tokens nodes) (push_inline-tokens out n)
    ∙ append_assoc (list_tokens (reverse out)) (tokens n) (list_tokens nodes)

-- Merging changes no token.
pub normalize_inline-tokens :
    (nodes : List Node) → list_tokens (normalize_inline nodes) ≡ list_tokens nodes
unfolding normalize_inline list_tokens
normalize_inline-tokens nodes = normalize_from-tokens [] nodes
