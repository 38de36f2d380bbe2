-- ===== src/Prompts.antt =====
-- api/services/prompts.py, `_keep_ends` and `_around_selection`: a long document cut to a budget of
-- characters. `head_share` of the source is a fraction; `share` is `int(budget * head_share)`.
pub mod Budget
mod Tests
use synapse_canvas.Base.{
  ℕ, ◌+◌, ◌-◌, ◌/◌, min, List, [], ◌∷◌, ◌++◌, Bool, true, false, Option, none, some, ltb, leb,
  if◌then◌else◌, length, take, drop,
}
use synapse_canvas.ProseMirror.Utf16.{Text}

-- `"\n[…]\n"`
abbrev pub omitted : Text
omitted = 10 ∷ 91 ∷ 0x2026 ∷ 93 ∷ 10 ∷ []

pub record DocumentContext : Type 0 where
  pub before : Text
  pub selection : Text
  pub after : Text
  pub truncated : Bool

-- `text[-tail:] if tail else ""`
abbrev pub last_of : ℕ → Text → Text
last_of tail text = drop (length text - tail) text

unfoldable pub keep_ends : (ℕ → ℕ) → Text → ℕ → Text × Bool
keep_ends share text budget =
    let head = share budget in
    if leb (length text) budget
    then (text, false)
    else (take head text ++ (omitted ++ last_of (budget - head) text), true)

-- The room behind the selection, and the room in front of it.
unfoldable pub rooms : ℕ → ℕ → ℕ → ℕ × ℕ
rooms before after room =
    let after_room = min after (room / 3) in
    let before_room = room - after_room in
    if ltb before before_room
    then (before, min after (after_room + before_room - before))
    else (before_room, after_room)

-- `none` is SelectionError: the selection alone is over the budget.
unfoldable pub around_selection : (ℕ → ℕ) → Text → ℕ → ℕ → ℕ → Option DocumentContext
unfolding keep_ends rooms
around_selection share text start stop budget =
    let selection = take (stop - start) (drop start text) in
    let before = take start text in
    let after = drop stop text in
    let room = budget - length selection in
    let (before_room, after_room) = rooms (length before) (length after) room in
    if ltb budget (length selection)
    then none
    else if leb (length before + length after) room
    then some (record { before = before; selection = selection; after = after; truncated = false })
    else some (record {
      before = (keep_ends share before before_room).0;
      selection = selection;
      after = take after_room after ++ (if ltb after_room (length after) then omitted else []);
      truncated = true;
    })
