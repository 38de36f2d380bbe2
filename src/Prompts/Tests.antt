-- ===== src/Prompts/Tests.antt =====
-- Ten letters, two of them selected, and room for six.
use synapse_canvas.Base.{
  ℕ, ◌≤◌, ◌<◌, ◌≡◌, ◌⊎◌, [], ◌∷◌, none, some, arith, ◌*◌, ◌/◌, ◌-◌, take, drop, length,
}
use synapse_canvas.ProseMirror.Utf16.{Text}
use synapse_canvas.Prompts.{DocumentContext, around_selection}
use synapse_canvas.Prompts.Budget.{Fits, around_selection-Fits}

abbrev letters : Text
letters = b'a' ∷ b'b' ∷ b'c' ∷ b'd' ∷ b'e' ∷ b'f' ∷ b'g' ∷ b'h' ∷ b'i' ∷ b'j' ∷ []

abbrev two_fifths : ℕ → ℕ
two_fifths b = b * 2 / 5

two_fifths-le : (b : ℕ) → two_fifths b ≤ b
two_fifths-le b = omega arith

around_selection-Fits_example :
    ((around_selection two_fifths letters 4 6 6 ≡ none)
      × (6 < length (take (6 - 4) (drop 4 letters))))
    ⊎ ((c : DocumentContext) × (around_selection two_fifths letters 4 6 6 ≡ some c)
        × Fits letters 4 6 6 c)
around_selection-Fits_example =
    around_selection-Fits two_fifths letters 4 6 6 two_fifths-le (omega arith)
