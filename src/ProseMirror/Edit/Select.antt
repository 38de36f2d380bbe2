-- ===== src/ProseMirror/Edit/Select.antt =====
-- `snap_selection` and `replace_selection`: which range is replaced, and that the second pair of
-- `_block_at` calls never fails.
use synapse_canvas.Base.{
  ℕ, suc, ◌+◌, ◌≤◌, ◌<◌, ◌≡◌, refl, sym, ap, ap₂, ◌∙◌, List, [], ◌∷◌, ◌++◌, Bool-cases, arith, true,
  false, Option, none, some, take, drop, length, get_elem?, Option-cases, inl, inr, ◌⊎◌, leb,
  if◌then◌else◌,
}
use synapse_canvas.ProseMirror.Utf16.{Text}
use synapse_canvas.ProseMirror.Node.{Node, Nodes, Kind, Attrs, elem, content, list_size, to_list}
use synapse_canvas.ProseMirror.Tokens.{list_tokens, content_tokens, replay}
use synapse_canvas.ProseMirror.Blocks.{
  Span, spans_from, block_spans, block_at, textblock_at, holds_pos, NodePath,
}
use synapse_canvas.ProseMirror.Blocks.Spans.{
  IsFilled, block_at_sound, block_at_from-start, block_at_from-end,
}
use synapse_canvas.ProseMirror.Edit.Inline.{paragraphs}
use synapse_canvas.ProseMirror.Edit.{
  Edit, snap_selection, replace_selection, replace_blocks, reblock, block_range, span_range,
  same_block, path_eq, with_children, ◌>>=◌, >>=-eq-some,
}
use synapse_canvas.ProseMirror.Edit.Replay.{splice-replay, content_tokens-with_children}

pub path_eq_sound : (p q : NodePath) → path_eq p q ≡ true → p ≡ q
path_eq_sound [] [] h = refl
path_eq_sound [] (j ∷ q) h = cc
path_eq_sound (i ∷ p) [] h = cc
path_eq_sound (i ∷ p) (j ∷ q) h = ground (arith, path_eq_sound p q)

path_eq_refl : (p : NodePath) → path_eq p p ≡ true
path_eq_refl [] = refl
path_eq_refl (i ∷ p) = ground (arith, path_eq_refl p)

-- One textblock lies round both positions.
abbrev pub IsTogether : Node → ℕ → ℕ → Type 0
IsTogether doc start stop =
    (path : NodePath) × (s : ℕ) × (t : ℕ) × (textblock_at doc start 0 ≡ some (path, s))
    × (textblock_at doc stop 0 ≡ some (path, t))

same_block-together :
    (a b : Option (NodePath × ℕ)) (found : NodePath × ℕ)
    → same_block a b ≡ some found
    → (path : NodePath) × (s : ℕ) × (t : ℕ) × (a ≡ some (path, s)) × (b ≡ some (path, t))
same_block-together none b found h = absurd (ground arith)
same_block-together (some a) none found h = absurd (ground arith)
same_block-together (some (p, s)) (some (q, t)) found h = elim (Bool-cases (path_eq p q)) [
  | inl e ↦ (p, s, t, refl, ground (arith, path_eq_sound p q e))
  | inr e ↦ absurd (ground arith)
]

same_block-apart :
    (doc : Node) (start stop : ℕ)
    → same_block (textblock_at doc start 0) (textblock_at doc stop 0) ≡ none
    → ¬ IsTogether doc start stop
same_block-apart doc start stop h (path, s, t, a, b) =
    ground (arith, path_eq_refl path, rw (a, b) at h)

-- A range of whole top-level blocks, as positions.
pub record WholeBlocks (ns : List Node) (i j : ℕ) (range : ℕ × ℕ) : Type 0 where
  pub ordered : i ≤ j
  pub within : j < length ns
  pub first : Span
  pub last : Span
  pub first_at : get_elem? (spans_from 0 ns) i ≡ some first
  pub last_at : get_elem? (spans_from 0 ns) j ≡ some last
  pub from_eq : range.0 ≡ first.0
  pub to_eq : range.1 ≡ last.1
  pub from_size : range.0 ≡ list_size (take i ns)
  pub to_size : range.1 ≡ list_size (take (suc j) ns)

holds-forward : (pos : ℕ) (s : Span) → holds_pos pos true s ≡ true → s.0 ≤ pos
holds-forward pos s h = ground arith

holds-backward : (pos : ℕ) (s : Span) → holds_pos pos false s ≡ true → pos ≤ s.1
holds-backward pos s h = ground arith

ordered_range :
    (i j : ℕ) (r : ℕ × ℕ)
    → ◌≡◌ {A = Option (ℕ × ℕ)} (if leb i j then some (i, j) else none) (some r)
    → (i ≤ j) × (r ≡ (i, j))
ordered_range i j r h = ground arith

block_range-WholeBlocks :
    (doc : Node) (start stop : ℕ) (range : ℕ × ℕ)
    → (block_range doc start stop >>= span_range (block_spans doc)) ≡ some range
    → (i : ℕ) × (j : ℕ) × (w : WholeBlocks (content doc) i j range) × (holds_pos start true w.first
        ≡ true)
      × (holds_pos stop false w.last ≡ true)
unfolding block_range block_spans
block_range-WholeBlocks doc start stop range h =
    let spans = spans_from 0 (content doc) in
    let (r, er, h1) = >>=-eq-some _ (span_range spans) h in
    let (i, ei, h2) = >>=-eq-some (block_at spans start true) _ er in
    let (j, ej, h3) = >>=-eq-some (block_at spans stop false) _ h2 in
    let (le, pair) = ordered_range i j r h3 in
    let (s, at, a, b, lt, holds) = block_at_sound (content doc) start true i ei in
    let (t, at', a', b', lt', holds') = block_at_sound (content doc) stop false j ej in
    let e : range ≡ (s.0, t.1) = ground arith in
    (
      i,
      j,
      record {
        ordered = le;
        within = lt';
        first = s;
        last = t;
        first_at = at;
        last_at = at';
        from_eq = ap (λ p. p.0) e;
        to_eq = ap (λ p. p.1) e;
        from_size = ap (λ p. p.0) e ∙ a;
        to_size = ap (λ p. p.1) e ∙ b';
      },
      holds,
      holds',
    )

kept_range :
    (start stop : ℕ) (range : ℕ × ℕ)
    → ◌≡◌ {A = Option (ℕ × ℕ)} (some (start, stop)) (some range)
    → range ≡ (start, stop)
kept_range start stop range h = ground arith

-- The range that `snap_selection` answers with holds the one that was asked for. It is that range
-- itself where one textblock lies round both ends. Where none does, it is whole top-level blocks,
-- and no more of them than needed: the first is the one that `start` is in or begins, the last the
-- one that `stop` is in or ends.
pub snap_selection-grows :
    (doc : Node) (start stop : ℕ) (range : ℕ × ℕ)
    → snap_selection doc start stop ≡ some range
    → (range.0 ≤ start)
      × (stop ≤ range.1)
      × ((IsTogether doc start stop × (range ≡ (start, stop)))
          ⊎ ((¬ IsTogether doc start stop)
              × ((i : ℕ) × (j : ℕ) × (w : WholeBlocks (content doc) i j range) × (holds_pos start
                      true w.first
                    ≡ true)
                  × (holds_pos stop false w.last ≡ true))))
unfolding snap_selection
snap_selection-grows doc start stop range h =
    elim (Option-cases (same_block (textblock_at doc start 0) (textblock_at doc stop 0))) [
      | inl e ↦
          let (i, j, w, from, to) =
            block_range-WholeBlocks doc start stop range (rw (e, snap_selection) at h) in
          (
            omega (arith, holds-forward start w.first from, w.from_eq),
            omega (arith, holds-backward stop w.last to, w.to_eq),
            inr (same_block-apart doc start stop e, (i, j, w, from, to)),
          )
      | inr (found, e) ↦
          let same : range ≡ (start, stop) =
            kept_range start stop range (rw (e, snap_selection) at h) in
          (
            omega (arith, ap (λ r. r.0) same),
            omega (arith, ap (λ r. r.1) same),
            inl (same_block-together _ _ found e, same),
          )
    ]

-- The same blocks are found again from the ends of the snapped range, so the `assert` in
-- `replace_selection` holds.
reblock-WholeBlocks :
    (doc : Node) (i j : ℕ) (range : ℕ × ℕ)
    → IsFilled (content doc)
    → WholeBlocks (content doc) i j range
    → reblock doc range ≡ some (i, j)
unfolding reblock block_spans block_at
reblock-WholeBlocks doc i j range f w =
    rw
      (
        w.from_eq,
        w.to_eq,
        block_at_from-start 0 0 (content doc) i w.first f w.first_at,
        block_at_from-end 0 0 (content doc) j w.last f w.last_at,
      )
      (ap₂ (λ a b. some (a, b)) (omega arith) (omega arith))

snap_selection-apart :
    (doc : Node) (start stop : ℕ)
    → same_block (textblock_at doc start 0) (textblock_at doc stop 0) ≡ none
    → snap_selection doc start stop ≡ (block_range doc start stop >>= span_range (block_spans doc))
unfolding snap_selection
snap_selection-apart doc start stop apart = rw (apart, snap_selection) refl

replace_selection-apart :
    (doc : Node) (start stop : ℕ) (reply : Text)
    → same_block (textblock_at doc start 0) (textblock_at doc stop 0) ≡ none
    → replace_selection doc start stop reply ≡ (
        snap_selection doc start stop >>= λ snapped.
        reblock doc snapped >>= replace_blocks doc snapped reply)
unfolding replace_selection
replace_selection-apart doc start stop reply apart = rw (apart, replace_selection) refl

blocks_edit : (doc : Node) (range : ℕ × ℕ) (reply : Text) (i j : ℕ) → Edit
blocks_edit doc range reply i j = record {
  result =
      with_children doc (take i (content doc) ++ (paragraphs reply ++ drop (j + 1) (content doc)));
  step_from = range.0;
  step_to = range.1;
  slice = paragraphs reply;
}

blocks_edit-replay :
    (k : Kind) (attrs : Attrs) (c : Nodes) (range : ℕ × ℕ) (reply : Text) (i j : ℕ)
    → WholeBlocks (to_list c) i j range
    → content_tokens (blocks_edit (elem k attrs c) range reply i j).result
      ≡ replay range.0 range.1 (list_tokens (paragraphs reply)) (list_tokens (to_list c))
unfolding blocks_edit
blocks_edit-replay k attrs c range reply i j w =
    let e : j + 1 ≡ suc j = omega arith in
    content_tokens-with_children k attrs c _
    ∙ splice-replay i (j + 1) (to_list c) (paragraphs reply)
    ∙ ap₂ (λ a b. replay a b (list_tokens (paragraphs reply)) (list_tokens (to_list c)))
        (sym w.from_size) (ap (λ n. list_size (take n (to_list c))) e ∙ sym w.to_size)

-- A selection across blocks: `replace_selection` gives an edit for exactly the range that
-- `snap_selection` answers with, its step replays to the stored document, and with no range there
-- is no edit.
pub replace_selection-replay_blocks :
    (k : Kind) (attrs : Attrs) (c : Nodes) (start stop : ℕ) (reply : Text)
    → let doc : Node = elem k attrs c in
      IsFilled (to_list c)
      → same_block (textblock_at doc start 0) (textblock_at doc stop 0) ≡ none
      → ((snap_selection doc start stop ≡ none) × (replace_selection doc start stop reply ≡ none))
        ⊎ ((range : ℕ × ℕ) × (e : Edit) × (snap_selection doc start stop ≡ some range)
            × (replace_selection doc start stop reply ≡ some e)
            × (e.step_from ≡ range.0)
            × (e.step_to ≡ range.1)
            × (content_tokens e.result
                ≡ replay e.step_from e.step_to (list_tokens e.slice) (content_tokens doc)))
unfolding content_tokens replace_blocks blocks_edit
replace_selection-replay_blocks k attrs c start stop reply f apart =
    let doc : Node = elem k attrs c in
    let snap = snap_selection-apart doc start stop apart in
    let run = replace_selection-apart doc start stop reply apart in
    let next = λ (snapped : ℕ × ℕ). reblock doc snapped >>= replace_blocks doc snapped reply in
    elim (Option-cases (block_range doc start stop >>= span_range (block_spans doc))) [
      | inl e ↦ inl (snap ∙ e, run ∙ ap (λ o. o >>= next) (snap ∙ e))
      | inr (range, e) ↦
          let (i, j, w, lo, hi) = block_range-WholeBlocks doc start stop range e in
          inr (
            range,
            blocks_edit doc range reply i j,
            snap ∙ e,
            run
                ∙ ap (λ o. o >>= next) (snap ∙ e)
                ∙ ap (λ o. o >>= replace_blocks doc range reply)
                    (reblock-WholeBlocks doc i j range f w),
            refl,
            refl,
            blocks_edit-replay k attrs c range reply i j w,
          )
    ]
