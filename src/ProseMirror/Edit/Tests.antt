-- ===== src/ProseMirror/Edit/Tests.antt =====
-- The edits of api/services/prosemirror.py on a small document: a paragraph with an emoji, a list
-- with one item and an empty paragraph.
use synapse_canvas.Base.{ℕ, ◌≤◌, ◌≡◌, refl, true, false, [], ◌∷◌, arith, none, some, ◌⊎◌, inl}
use synapse_canvas.ProseMirror.Utf16.{Text, utf16_len}
use synapse_canvas.ProseMirror.Node.{
  Node, Nodes, text, elem, nil, cons, no_attrs, doc, paragraph, bullet_list, list_item, content,
  node_size, list_size, content_size, is_textblock,
}
use synapse_canvas.ProseMirror.Tokens.{list_tokens, content_tokens, replay}
use synapse_canvas.ProseMirror.Blocks.{textblock_at, holds_pos, get, block_at, block_spans}
use synapse_canvas.ProseMirror.Edit.Inline.{paragraphs, strip}
use synapse_canvas.ProseMirror.Edit.{Edit, snap_selection, replace_selection, insert_after}
use synapse_canvas.ProseMirror.Edit.Replay.{insert_after-replay}
use synapse_canvas.ProseMirror.Edit.Select.{
  IsTogether, WholeBlocks, snap_selection-grows, replace_selection-replay_blocks,
}
use synapse_canvas.ProseMirror.Edit.InBlock.{replace_selection-replay_block}

abbrev smile : Text
smile = b'a' ∷ 0x1F600 ∷ b' ' ∷ b'b' ∷ []

abbrev smile_block : Nodes
smile_block = cons (text smile (7 ∷ [])) nil

abbrev blocks : Nodes
blocks = cons (elem paragraph no_attrs smile_block) (
    cons
      (elem bullet_list no_attrs (
        cons
          (elem list_item no_attrs
            (cons (elem paragraph no_attrs (cons (text (b'x' ∷ []) []) nil)) nil))
          nil))
      (cons (elem paragraph no_attrs nil) nil))

abbrev sample : Node
sample = elem doc no_attrs blocks

abbrev two_lines : Text
two_lines = b'h' ∷ b'i' ∷ b'\n' ∷ b' ' ∷ b'\n' ∷ b'y' ∷ b'o' ∷ []

sample_size : content_size sample ≡ 16
unfolding content_size list_size node_size utf16_len
sample_size = refl

reply_paragraphs :
    paragraphs two_lines
    ≡ elem paragraph no_attrs (cons (text (b'h' ∷ b'i' ∷ []) []) nil)
      ∷ elem paragraph no_attrs (cons (text (b'y' ∷ b'o' ∷ []) []) nil)
      ∷ []
unfolding paragraphs strip
reply_paragraphs = refl

insert_after-replay_example :
    let e = insert_after sample (some 9) two_lines in
    (content_tokens e.result
      ≡ replay e.step_from e.step_to (list_tokens e.slice) (content_tokens sample))
    × (e.step_from ≡ e.step_to)
    × (e.step_from ≤ content_size sample)
insert_after-replay_example = insert_after-replay doc no_attrs blocks (some 9) two_lines

snapped : snap_selection sample 3 10 ≡ some (0, 14)
unfolding snap_selection textblock_at is_textblock block_at block_spans node_size utf16_len
snapped = refl

snap_selection-grows_example :
    (0 ≤ 3)
    × (10 ≤ 14)
    × ((IsTogether sample 3 10 × ◌≡◌ {A = ℕ × ℕ} (0, 14) (3, 10))
        ⊎ ((¬ IsTogether sample 3 10)
            × ((i : ℕ) × (j : ℕ) × (w : WholeBlocks (content sample) i j (0, 14)) × (holds_pos 3
                    true w.first
                  ≡ true)
                × (holds_pos 10 false w.last ≡ true))))
unfolding snap_selection textblock_at is_textblock block_at block_spans node_size utf16_len
snap_selection-grows_example = snap_selection-grows sample 3 10 (0, 14) refl

replace_selection-replay_blocks_example :
    ((snap_selection sample 3 10 ≡ none) × (replace_selection sample 3 10 two_lines ≡ none))
    ⊎ ((range : ℕ × ℕ) × (e : Edit) × (snap_selection sample 3 10 ≡ some range)
        × (replace_selection sample 3 10 two_lines ≡ some e)
        × (e.step_from ≡ range.0)
        × (e.step_to ≡ range.1)
        × (content_tokens e.result
            ≡ replay e.step_from e.step_to (list_tokens e.slice) (content_tokens sample)))
unfolding textblock_at is_textblock node_size utf16_len
replace_selection-replay_blocks_example =
    replace_selection-replay_blocks doc no_attrs blocks 3 10 two_lines (omega arith) refl

replace_selection-replay_block_example :
    (e : Edit) × (replace_selection sample 2 5 two_lines ≡ some e)
    × (e.step_from ≡ 2)
    × (e.step_to ≡ 5)
    × (content_tokens e.result
        ≡ replay e.step_from e.step_to (list_tokens e.slice) (content_tokens sample))
unfolding textblock_at is_textblock node_size utf16_len get
replace_selection-replay_block_example =
    replace_selection-replay_block sample (0 ∷ []) 0 2 5 two_lines paragraph no_attrs smile_block
      refl refl refl (omega arith)
      (inl ((b'a' ∷ [], 0x1F600 ∷ b' ' ∷ b'b' ∷ [], refl, refl), omega arith))
      (inl ((b'a' ∷ 0x1F600 ∷ b' ' ∷ [], b'b' ∷ [], refl, refl), omega arith))
