-- ===== src/ProseMirror/Utf16.antt =====
-- api/services/prosemirror.py, `utf16_len` and `utf16_index`. A Python string is the list of its
-- code points; a position counts UTF-16 code units, two for a code point past 0xFFFF.
use synapse_canvas.Base.{
  ℕ, ◌+◌, ◌≤◌, min, ◌≡◌, List, [], ◌∷◌, ◌++◌, arith, ltb, leb, ◌==◌, if◌then◌else◌, length,
  Bool-cases, inl, inr, length-append,
}

abbrev pub Text : Type 0
Text = List ℕ

-- The UTF-16 units of one code point.
unfoldable pub units_of : ℕ → ℕ
units_of c = if ltb 0xFFFF c then 2 else 1

unfoldable pub utf16_len : Text → ℕ
unfolding units_of
utf16_len [] = 0
utf16_len (c ∷ text) = units_of c + utf16_len text

-- The loop of `utf16_index`: `index` and `count` are those reached at the head of `text`.
scan : Text → ℕ → ℕ → ℕ → ℕ
unfolding units_of
scan [] units count index = index
scan (c ∷ text) units count index =
    let rest = scan text units (count + units_of c) (index + 1) in
    if leb units count then index else rest

-- Offsets are natural here, so `max(0, …)` is the identity.
unfoldable pub utf16_index : Text → ℕ → ℕ
unfolding utf16_len scan
utf16_index text units =
    if length text == utf16_len text then min units (length text) else scan text units 0 0

pub utf16_len-append : (xs ys : Text) → utf16_len (xs ++ ys) ≡ utf16_len xs + utf16_len ys
unfolding utf16_len
utf16_len-append [] ys = omega arith
utf16_len-append (c ∷ xs) ys = omega (arith, utf16_len-append xs ys)

pub length-le-utf16_len : (text : Text) → length text ≤ utf16_len text
unfolding utf16_len
length-le-utf16_len [] = omega arith
length-le-utf16_len (c ∷ text) = ground (arith, length-le-utf16_len text)

-- Past a prefix whose units are exactly those still to skip, the loop has counted its characters.
scan-prefix :
    (xs ys : Text) (count index : ℕ)
    → scan (xs ++ ys) (count + utf16_len xs) count index ≡ index + length xs
unfolding scan utf16_len
scan-prefix [] [] count index = omega arith
scan-prefix [] (c ∷ ys) count index = ground arith
scan-prefix (c ∷ xs) ys count index =
    ground (arith, scan-prefix xs ys (count + units_of c) (index + 1))

-- With no wide character in the text, a prefix has as many units as characters.
prefix_narrow : (xs ys : Text) → length (xs ++ ys) ≡ utf16_len (xs ++ ys) → utf16_len xs ≡ length xs
prefix_narrow xs ys h = omega (
  arith,
  length-append xs ys,
  utf16_len-append xs ys,
  length-le-utf16_len xs,
  length-le-utf16_len ys,
)

-- Going `utf16_len xs` units into a text that begins with `xs` lands exactly behind `xs`, on the
-- short cut for narrow texts and in the loop alike.
pub utf16_index-prefix : (xs ys : Text) → utf16_index (xs ++ ys) (utf16_len xs) ≡ length xs
unfolding utf16_index
utf16_index-prefix xs ys = elim (Bool-cases (length (xs ++ ys) == utf16_len (xs ++ ys))) [
  | inl narrow ↦ ground (arith, prefix_narrow xs ys, length-append xs ys)
  | inr wide ↦ ground (arith, scan-prefix xs ys 0 0)
]

scan-le : (text : Text) (units count index : ℕ) → scan text units count index ≤ index + length text
unfolding scan
scan-le [] units count index = omega arith
scan-le (c ∷ text) units count index =
    ground (arith, scan-le text units (count + units_of c) (index + 1))

-- The index never leaves the text.
pub utf16_index-le : (text : Text) (units : ℕ) → utf16_index text units ≤ length text
unfolding utf16_index
utf16_index-le text units = ground (arith, scan-le text units 0 0)
