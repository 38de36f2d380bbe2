-- ===== src/Chunking/Chains.antt =====
-- Stretches of a text in order: the matches of a separator, the pieces between, the units.
use synapse_canvas.Base.{
  ℕ, zero, suc, ◌+◌, ◌-◌, ◌≤◌, ◌<◌, ◌≡◌, List, [], ◌∷◌, ◌++◌, arith, Bool, true, Option, some, ◌==◌,
  length, drop, get_elem?, length-take, length-drop, inl, inr, Bool-cases,
}
use synapse_canvas.ProseMirror.Utf16.{Text}
use synapse_canvas.ProseMirror.Edit.Inline.{is_space}
use synapse_canvas.Chunking.{
  Separator, paragraph_break, sentence_end, line_break, space, run_of, is_blank, is_newline, holds,
  is_closer, match_at, scan_matches, slice, finditer, char_before, trim_start, trim_end, trimmed,
  pieces_from, pieces,
}

-- Not empty, in order and apart, between two positions.
abbrev pub Ordered : ℕ → List (ℕ × ℕ) → ℕ → Type 0
Ordered low [] high = low ≤ high
Ordered low (p ∷ ps) high = (low ≤ p.0) × (p.0 < p.1) × Ordered p.1 ps high

pub Ordered-le : (low : ℕ) (ps : List (ℕ × ℕ)) (high : ℕ) → Ordered low ps high → low ≤ high
Ordered-le low [] high h = h
Ordered-le low (p ∷ ps) high (a, b, c) = omega (arith, Ordered-le p.1 ps high c)

pub Ordered-widen :
    (low low' : ℕ) (ps : List (ℕ × ℕ)) (high high' : ℕ)
    → low' ≤ low
    → high ≤ high'
    → Ordered low ps high
    → Ordered low' ps high'
Ordered-widen low low' [] high high' l r h = omega arith
Ordered-widen low low' (p ∷ ps) high high' l r (a, b, c) =
    (omega arith, b, Ordered-widen p.1 p.1 ps high high' (omega arith) r c)

pub Ordered-append :
    (low middle high : ℕ) (ps qs : List (ℕ × ℕ))
    → Ordered low ps middle
    → Ordered middle qs high
    → Ordered low (ps ++ qs) high
Ordered-append low middle high [] qs h k = Ordered-widen middle low qs high high h (omega arith) k
Ordered-append low middle high (p ∷ ps) qs (a, b, c) k =
    (a, b, Ordered-append p.1 middle high ps qs c k)

run_of-le : (p : ℕ → Bool) (text : Text) → run_of p text ≤ length text
run_of-le p [] = omega arith
run_of-le p (c ∷ text) = ground (arith, run_of-le p text)

holds-get_elem? :
    (p : ℕ → Bool) (text : Text) (i : ℕ) → holds p (get_elem? text i) ≡ true → i < length text
holds-get_elem? p [] i h = cc
holds-get_elem? p (c ∷ text) zero h = omega arith
holds-get_elem? p (c ∷ text) (suc i) h = omega (arith, holds-get_elem? p text i h)

-- A match stays in the text.
match_at-le :
    (sep : Separator) (before : Option ℕ) (text : Text) → match_at sep before text ≤ length text
unfolding match_at
match_at-le space before text = run_of-le is_space text
match_at-le line_break before text = ground (arith, run_of-le is_space text)
match_at-le paragraph_break before [] = omega arith
match_at-le paragraph_break before (c ∷ text) =
    let n = run_of is_blank text in
    ground (
      arith,
      holds-get_elem? is_newline text n,
      run_of-le is_space (drop (n + 1) text),
      length-drop (n + 1) text,
    )
match_at-le sentence_end before text =
    let n = run_of is_closer text in
    ground (arith, run_of-le is_closer text, run_of-le is_space (drop n text), length-drop n text)

scan_matches-Ordered :
    (sep : Separator) (before : Option ℕ) (text : Text) (pos skip : ℕ)
    → skip ≤ length text
    → Ordered (pos + skip) (scan_matches sep before text pos skip) (pos + length text)
unfolding scan_matches
scan_matches-Ordered sep before [] pos skip h = omega arith
scan_matches-Ordered sep before (c ∷ text) pos (suc skip) h =
    Ordered-widen (pos + 1 + skip) (pos + suc skip) (scan_matches sep (some c) text (pos + 1) skip)
      (pos + 1 + length text) (pos + length (c ∷ text)) (omega arith) (omega arith)
      (scan_matches-Ordered sep (some c) text (pos + 1) skip (omega arith))
scan_matches-Ordered sep before (c ∷ text) pos zero h =
    let n = match_at sep before (c ∷ text) in
    let rest = scan_matches sep (some c) text (pos + 1) (n - 1) in
    let within : n ≤ length (c ∷ text) = match_at-le sep before (c ∷ text) in
    let later = scan_matches-Ordered sep (some c) text (pos + 1) (n - 1) (omega (arith, within)) in
    elim (Bool-cases (n == 0)) [
      | inl e ↦ rw e (
          Ordered-widen (pos + 1 + (n - 1)) (pos + 0) rest (pos + 1 + length text)
            (pos + length (c ∷ text)) (omega arith) (omega arith) later)
      | inr e ↦ rw e (
        omega arith,
        ground arith,
        Ordered-widen (pos + 1 + (n - 1)) (pos + n) rest (pos + 1 + length text)
            (pos + length (c ∷ text)) (ground arith) (omega arith) later,
      )
    ]

pub length-slice : (text : Text) (start stop : ℕ) → length (slice text start stop) ≤ stop - start
unfolding slice
length-slice text start stop = omega (arith, length-take (stop - start) (drop start text))

pub finditer-Ordered :
    (sep : Separator) (text : Text) (start stop : ℕ)
    → start ≤ stop
    → Ordered start (finditer sep text start stop) stop
unfolding finditer
finditer-Ordered sep text start stop h =
    let region = slice text start stop in
    Ordered-widen (start + 0) start (scan_matches sep (char_before text start) region start 0)
      (start + length region) stop (omega arith) (omega (arith, length-slice text start stop))
      (scan_matches-Ordered sep (char_before text start) region start 0 (omega arith))

trim_start-bounds :
    (text : Text) (start left : ℕ)
    → (start ≤ trim_start text start left) × (trim_start text start left ≤ start + left)
unfolding trim_start
trim_start-bounds text start zero = ground arith
trim_start-bounds text start (suc left) = ground (arith, trim_start-bounds text (start + 1) left)

trim_end-bounds :
    (text : Text) (start left : ℕ)
    → (start ≤ trim_end text start left) × (trim_end text start left ≤ start + left)
unfolding trim_end
trim_end-bounds text start zero = ground arith
trim_end-bounds text start (suc left) = ground (arith, trim_end-bounds text start left)

trimmed-Ordered :
    (text : Text) (start stop : ℕ) → start ≤ stop → Ordered start (trimmed text start stop) stop
unfolding trimmed
trimmed-Ordered text start stop h =
    let low = trim_start text start (stop - start) in
    ground
      (arith, trim_start-bounds text start (stop - start), trim_end-bounds text low (stop - low))

pieces_from-Ordered :
    (text : Text) (position : ℕ) (ms : List (ℕ × ℕ)) (stop : ℕ)
    → Ordered position ms stop
    → Ordered position (pieces_from text position ms stop) stop
unfolding pieces_from
pieces_from-Ordered text position [] stop h = trimmed-Ordered text position stop h
pieces_from-Ordered text position (m ∷ ms) stop (a, b, c) =
    Ordered-append position m.0 stop (trimmed text position m.0) (pieces_from text m.1 ms stop)
      (trimmed-Ordered text position m.0 a)
      (Ordered-widen m.1 m.0 (pieces_from text m.1 ms stop) stop stop (omega arith) (omega arith)
        (pieces_from-Ordered text m.1 ms stop c))

pub pieces-Ordered :
    (text : Text) (start stop : ℕ) (sep : Separator)
    → start ≤ stop
    → Ordered start (pieces text start stop sep) stop
unfolding pieces
pieces-Ordered text start stop sep h =
    pieces_from-Ordered text start (finditer sep text start stop) stop
      (finditer-Ordered sep text start stop h)
