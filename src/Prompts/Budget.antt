-- ===== src/Prompts/Budget.antt =====
-- api/services/prompts.py: what is sent of a long document, its budget and the selection.
use synapse_canvas.Base.{
  ℕ, zero, suc, ◌+◌, ◌-◌, ◌≤◌, ◌<◌, ◌≡◌, ◌⊎◌, inl, inr, refl, sym, ap, ◌∙◌, [], ◌∷◌, ◌++◌, arith,
  true, false, none, some, ltb, leb, if◌then◌else◌, length, take, drop, Bool-cases, length-append,
  length-take, length-drop, take-append-drop,
}
use synapse_canvas.ProseMirror.Utf16.{Text}
use synapse_canvas.Prompts.{DocumentContext, omitted, last_of, keep_ends, rooms, around_selection}

-- The characters kept, beside the five of the mark for what was left out.
pub length-keep_ends :
    (share : ℕ → ℕ) (text : Text) (budget : ℕ)
    → share budget ≤ budget
    → length (keep_ends share text budget).0 ≤ budget + 5
unfolding keep_ends
length-keep_ends share text budget le =
    let head = take (share budget) text in
    let tail = last_of (budget - share budget) text in
    elim (Bool-cases (leb (length text) budget)) [
      | inl short ↦ rw (short, keep_ends) (ground arith)
      | inr long ↦
          rw (long, keep_ends)
            (omega (
              arith,
              length-append head (omitted ++ tail),
              length-take (share budget) text,
              length-drop (length text - (budget - share budget)) text,
            ))
    ]

rooms-bounds :
    (before after room : ℕ)
    → ((rooms before after room).0 + (rooms before after room).1 ≤ room)
      × ((rooms before after room).1 ≤ after)
unfolding rooms
rooms-bounds before after room = ground arith

drop-nil : (k : ℕ) → [] ≡ drop {A = ℕ} k []
drop-nil zero = refl
drop-nil (suc k) = refl

drop-drop : (m n k : ℕ) (text : Text) → k ≡ m + n → drop n (drop m text) ≡ drop k text
drop-drop zero n k text h = let same : n ≡ k = omega arith in ap (λ i. drop i text) same
drop-drop (suc m) zero k [] h = drop-nil k
drop-drop (suc m) (suc n) k [] h = drop-nil k
drop-drop (suc m) n zero (c ∷ text) h = absurd (omega arith)
drop-drop (suc m) n (suc k) (c ∷ text) h = drop-drop m n k text (omega arith)

-- The three parts of a text, put together again.
parts_lem :
    (text : Text) (start stop : ℕ)
    → start ≤ stop
    → take start text ++ (take (stop - start) (drop start text) ++ drop stop text) ≡ text
parts_lem text start stop le =
    let rest : drop (stop - start) (drop start text) ≡ drop stop text =
      drop-drop start (stop - start) stop text (omega arith) in
    ap (λ t. take start text ++ (take (stop - start) (drop start text) ++ t)) (sym rest)
    ∙ ap (λ t. take start text ++ t) (take-append-drop (stop - start) (drop start text))
    ∙ take-append-drop start text

-- What `around_selection` sends.
abbrev pub Fits : Text → ℕ → ℕ → ℕ → DocumentContext → Type 0
Fits text start stop budget c =
    (c.selection ≡ take (stop - start) (drop start text))
    × (length c.before + length c.selection + length c.after ≤ budget + 10)
    × (c.truncated ≡ false → c.before ++ (c.selection ++ c.after) ≡ text)

cut-Fits :
    (share : ℕ → ℕ) (text : Text) (start stop budget : ℕ)
    → ((b : ℕ) → share b ≤ b)
    → let selection = take (stop - start) (drop start text) in
      let before = take start text in
      let after = drop stop text in
      let room = budget - length selection in
      let r = rooms (length before) (length after) room in
      length selection ≤ budget
      → length (keep_ends share before r.0).0
          + length selection
          + length (take r.1 after ++ (if ltb r.1 (length after) then omitted else []))
        ≤ budget + 10
cut-Fits share text start stop budget le small =
    let selection = take (stop - start) (drop start text) in
    let before = take start text in
    let after = drop stop text in
    let room = budget - length selection in
    let r = rooms (length before) (length after) room in
    ground (
      arith,
      rooms-bounds (length before) (length after) room,
      length-keep_ends share before r.0 (le r.0),
      length-append (take r.1 after) (if ltb r.1 (length after) then omitted else []),
      length-take r.1 after,
    )

-- A rewrite is refused only when its selection alone is over the budget. Otherwise the selection
-- is sent whole, the parts together are within the budget but for two marks of five characters,
-- and where nothing is marked as truncated they are the whole text.
pub around_selection-Fits :
    (share : ℕ → ℕ) (text : Text) (start stop budget : ℕ)
    → ((b : ℕ) → share b ≤ b)
    → start ≤ stop
    → ((around_selection share text start stop budget ≡ none)
        × (budget < length (take (stop - start) (drop start text))))
      ⊎ ((c : DocumentContext) × (around_selection share text start stop budget ≡ some c)
          × Fits text start stop budget c)
unfolding around_selection
around_selection-Fits share text start stop budget le ordered =
    let selection = take (stop - start) (drop start text) in
    let before = take start text in
    let after = drop stop text in
    let room = budget - length selection in
    let r = rooms (length before) (length after) room in
    elim (Bool-cases (ltb budget (length selection))) [
      | inl over ↦ inl (rw (over, around_selection) refl, ground arith)
      | inr small ↦ elim (Bool-cases (leb (length before + length after) room)) [
        | inl all ↦ inr (
          record { before = before; selection = selection; after = after; truncated = false },
          rw (small, around_selection) (rw all refl),
          (refl, ground arith, λ h. parts_lem text start stop ordered),
        )
        | inr long ↦ inr (
          record {
            before = (keep_ends share before r.0).0;
            selection = selection;
            after = take r.1 after ++ (if ltb r.1 (length after) then omitted else []);
            truncated = true;
          },
          rw (small, around_selection) (rw long refl),
          (refl, cut-Fits share text start stop budget le (ground arith), λ h. cc),
        )
      ]
    ]
