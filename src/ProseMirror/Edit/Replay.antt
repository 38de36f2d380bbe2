-- ===== src/ProseMirror/Edit/Replay.antt =====
-- `insert_after`, and `replace_selection` on whole blocks: the step that is sent to the peers,
-- replayed on the tokens of the old document, gives the tokens of the stored one.
use synapse_canvas.Base.{
  ℕ, zero, suc, ◌≤◌, ◌≡◌, refl, sym, ap, ap₂, ◌∙◌, List, ◌++◌, arith, false, Option, none, some,
  take, drop, length, take-append-drop, Option-cases, inl, inr,
}
use synapse_canvas.Base.Counts.{get_elem?-some}
use synapse_canvas.ProseMirror.Utf16.{Text}
use synapse_canvas.ProseMirror.Node.{
  Node, Nodes, Kind, Attrs, elem, content, list_size, content_size, to_list, to_list-of_list,
  list_size-append,
}
use synapse_canvas.ProseMirror.Tokens.{
  list_tokens, content_tokens, replay, list_tokens-append, length-list_tokens, take-append_length,
  drop-append_length,
}
use synapse_canvas.ProseMirror.Blocks.{spans_from, block_spans, block_at}
use synapse_canvas.ProseMirror.Blocks.Spans.{
  get_elem?-spans_from, length-spans_from, block_at_sound,
}
use synapse_canvas.ProseMirror.Edit.Inline.{paragraphs}
use synapse_canvas.ProseMirror.Edit.{insert_after, insert_index, end_of, with_children}

-- The tokens of the first blocks are the first tokens.
pub take-list_tokens :
    (i : ℕ) (ns : List Node)
    → take (list_size (take i ns)) (list_tokens ns) ≡ list_tokens (take i ns)
take-list_tokens i ns =
    ap₂ take (sym (length-list_tokens (take i ns)))
      (ap list_tokens (sym (take-append-drop i ns)) ∙ list_tokens-append (take i ns) (drop i ns))
    ∙ take-append_length (list_tokens (take i ns)) (list_tokens (drop i ns))

pub drop-list_tokens :
    (i : ℕ) (ns : List Node)
    → drop (list_size (take i ns)) (list_tokens ns) ≡ list_tokens (drop i ns)
drop-list_tokens i ns =
    ap₂ drop (sym (length-list_tokens (take i ns)))
      (ap list_tokens (sym (take-append-drop i ns)) ∙ list_tokens-append (take i ns) (drop i ns))
    ∙ drop-append_length (list_tokens (take i ns)) (list_tokens (drop i ns))

-- Blocks `i` up to `j` give way to `nodes`: a ReplaceStep over their positions.
pub splice-replay :
    (i j : ℕ) (ns nodes : List Node)
    → list_tokens (take i ns ++ (nodes ++ drop j ns))
      ≡ replay (list_size (take i ns)) (list_size (take j ns)) (list_tokens nodes) (list_tokens ns)
splice-replay i j ns nodes =
    list_tokens-append (take i ns) (nodes ++ drop j ns)
    ∙ ap₂ ◌++◌ (sym (take-list_tokens i ns)) (
        list_tokens-append nodes (drop j ns)
        ∙ ap (◌++◌ (list_tokens nodes)) (sym (drop-list_tokens j ns)))

pub content_tokens-with_children :
    (k : Kind) (attrs : Attrs) (c : Nodes) (ns : List Node)
    → content_tokens (with_children (elem k attrs c) ns) ≡ list_tokens ns
unfolding content_tokens
content_tokens-with_children k attrs c ns = ap list_tokens (to_list-of_list ns)

pub list_size-take-le : (i : ℕ) (ns : List Node) → list_size (take i ns) ≤ list_size ns
list_size-take-le i ns =
    omega (arith, list_size-append (take i ns) (drop i ns), ap list_size (take-append-drop i ns))

end_of-spans :
    (ns : List Node) (index : ℕ)
    → index ≤ length ns
    → end_of (spans_from 0 ns) index ≡ list_size (take index ns)
unfolding list_size
end_of-spans ns zero h = refl
end_of-spans ns (suc i) h =
    let (s, e) = get_elem?-some (spans_from 0 ns) i (omega (arith, length-spans_from 0 ns)) in
    rw (e, end_of) (omega (arith, (get_elem?-spans_from 0 ns i s e).1))

insert_index-le : (doc : Node) (pos : Option ℕ) → insert_index doc pos ≤ length (content doc)
unfolding insert_index block_spans
insert_index-le doc none = omega (arith, length-spans_from 0 (content doc))
insert_index-le doc (some pos) =
    elim (Option-cases (block_at (spans_from 0 (content doc)) pos false)) [
      | inl e ↦ rw (e, insert_index) (omega (arith, length-spans_from 0 (content doc)))
      | inr (i, e) ↦
          let (s, at, a, b, lt, holds) = block_at_sound (content doc) pos false i e in
          rw (e, insert_index) (omega arith)
    ]

-- Replaying the step of `insert_after` on the tokens of the old document gives the tokens of the
-- new one, whatever the position, the reply and the blocks; and the step lies in the document.
pub insert_after-replay :
    (k : Kind) (attrs : Attrs) (c : Nodes) (pos : Option ℕ) (reply : Text)
    → let doc : Node = elem k attrs c in
      let e = insert_after doc pos reply in
      (content_tokens e.result
        ≡ replay e.step_from e.step_to (list_tokens e.slice) (content_tokens doc))
      × (e.step_from ≡ e.step_to)
      × (e.step_from ≤ content_size doc)
unfolding insert_after block_spans content_size content_tokens
insert_after-replay k attrs c pos reply =
    let doc : Node = elem k attrs c in
    let at = end_of-spans (to_list c) (insert_index doc pos) (insert_index-le doc pos) in
    let i = insert_index doc pos in
    (
      rw at (
          content_tokens-with_children k attrs c _
          ∙ splice-replay i i (to_list c) (paragraphs reply)),
      refl,
      rw at (list_size-take-le i (to_list c)),
    )
