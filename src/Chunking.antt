-- ===== src/Chunking.antt =====
-- api/services/chunking.py: extracted text cut into units, and the units packed into passages.
-- The tokenizer is the embedding provider's: `count` stands for it.
pub mod Packing
pub mod Chains
pub mod Units
pub mod Cut
pub mod Coverage
pub mod Passages
mod Tests
use synapse_canvas.Base.{
  ℕ, zero, suc, ◌+◌, ◌-◌, ◌*◌, ◌/◌, min, List, [], ◌∷◌, ◌++◌, Bool, true, false, ◌&&◌, ◌||◌, Option,
  none, some, ltb, leb, ◌==◌, if◌then◌else◌, length, take, drop, get_elem?, any, count_if,
}
use synapse_canvas.ProseMirror.Utf16.{Text}
use synapse_canvas.ProseMirror.Edit.Inline.{is_space}

-- `text[start:end]`
unfoldable pub slice : Text → ℕ → ℕ → Text
slice text start stop = take (stop - start) (drop start text)

-- The four patterns, the coarsest first.
pub data Separator : Type 0 where
  paragraph_break sentence_end line_break space : Separator

-- How many characters at the head of a text pass a test.
abbrev pub run_of : (ℕ → Bool) → Text → ℕ
run_of p [] = 0
run_of p (c ∷ text) = if p c then suc (run_of p text) else 0

-- `[ \t\r\f\v]`
abbrev pub is_blank : ℕ → Bool
is_blank c = c == 32 || c == 9 || c == 13 || c == 12 || c == 11

-- `[.!?…。！？]`
abbrev pub is_terminal : ℕ → Bool
is_terminal c =
    c == 46 || c == 33 || c == 63 || c == 0x2026 || c == 0x3002 || c == 0xFF01 || c == 0xFF1F

-- `["'»”’)\]]`
abbrev pub is_closer : ℕ → Bool
is_closer c = c == 34 || c == 39 || c == 0xBB || c == 0x201D || c == 0x2019 || c == 41 || c == 93

abbrev pub is_newline : ℕ → Bool
is_newline c = c == 10

abbrev pub holds : (ℕ → Bool) → Option ℕ → Bool
holds p none = false
holds p (some c) = p c

-- The length of the match at the head of a text, 0 where there is none; `before` is the character
-- in front of it. `\s*\n\s*` is a whole run of whitespace with a newline in it.
unfoldable pub match_at : Separator → Option ℕ → Text → ℕ
unfolding is_space
match_at space before text = run_of is_space text
match_at line_break before text =
    let n = run_of is_space text in if any is_newline (take n text) then n else 0
match_at paragraph_break before [] = 0
match_at paragraph_break before (c ∷ text) =
    let n = run_of is_blank text in
    if is_newline c && holds is_newline (get_elem? text n)
    then n + 2 + run_of is_space (drop (n + 1) text)
    else 0
match_at sentence_end before text =
    let n = run_of is_closer text in
    let spaces = run_of is_space (drop n text) in
    if holds is_terminal before && ltb 0 spaces then n + spaces else 0

-- `separator.finditer`: the matches from the left, none inside another. `skip` characters belong
-- to the match before.
unfoldable pub scan_matches : Separator → Option ℕ → Text → ℕ → ℕ → List (ℕ × ℕ)
unfolding match_at
scan_matches sep before [] pos skip = []
scan_matches sep before (c ∷ text) pos (suc skip) = scan_matches sep (some c) text (pos + 1) skip
scan_matches sep before (c ∷ text) pos zero =
    let n = match_at sep before (c ∷ text) in
    let rest = scan_matches sep (some c) text (pos + 1) (n - 1) in
    if n == 0 then rest else (pos, pos + n) ∷ rest

-- The character in front of a position; a lookbehind reads it even at the start of the search.
abbrev pub char_before : Text → ℕ → Option ℕ
char_before text zero = none
char_before text (suc i) = get_elem? text i

unfoldable pub finditer : Separator → Text → ℕ → ℕ → List (ℕ × ℕ)
unfolding scan_matches slice
finditer sep text start stop =
    scan_matches sep (char_before text start) (slice text start stop) start 0

abbrev pub space_at : Text → ℕ → Bool
space_at text i = holds is_space (get_elem? text i)

-- The first loop of `_trimmed`, with `left` characters ahead.
unfoldable pub trim_start : Text → ℕ → ℕ → ℕ
unfolding is_space
trim_start text start zero = start
trim_start text start (suc left) =
    let rest = trim_start text (start + 1) left in if space_at text start then rest else start

-- The second loop: the end is `left` characters past `start`.
unfoldable pub trim_end : Text → ℕ → ℕ → ℕ
unfolding is_space
trim_end text start zero = start
trim_end text start (suc left) =
    let rest = trim_end text start left in
    if space_at text (start + left) then rest else start + suc left

unfoldable pub trimmed : Text → ℕ → ℕ → List (ℕ × ℕ)
unfolding trim_start trim_end
trimmed text start stop =
    let low = trim_start text start (stop - start) in
    let high = trim_end text low (stop - low) in if ltb low high then (low, high) ∷ [] else []

-- The loop of `_pieces`, from the end of the match before.
unfoldable pub pieces_from : Text → ℕ → List (ℕ × ℕ) → ℕ → List (ℕ × ℕ)
unfolding trimmed
pieces_from text position [] stop = trimmed text position stop
pieces_from text position (m ∷ ms) stop = trimmed text position m.0 ++ pieces_from text m.1 ms stop

unfoldable pub pieces : Text → ℕ → ℕ → Separator → List (ℕ × ℕ)
unfolding pieces_from finditer
pieces text start stop separator = pieces_from text start (finditer separator text start stop) stop

-- `_Unit`
pub record TextUnit : Type 0 where
  pub start : ℕ
  pub stop : ℕ
  pub tokens : ℕ

-- The bisection of `_cut`; `fuel` at least `high - low`.
unfoldable pub bisect : (Text → ℕ) → ℕ → Text → ℕ → ℕ → ℕ → ℕ → ℕ
unfolding slice
bisect count limit text start zero low high = low
bisect count limit text start (suc fuel) low high =
    let middle = (low + high + 1) / 2 in
    let up = bisect count limit text start fuel middle high in
    let down = bisect count limit text start fuel low (middle - 1) in
    if ltb low high then if leb (count (slice text start middle)) limit then up else down else low

abbrev pub new_unit : (Text → ℕ) → Text → ℕ → ℕ → TextUnit
unfolding slice
new_unit count text start stop = record {
  start = start;
  stop = stop;
  tokens = count (slice text start stop);
}

-- `_cut`; `fuel` at least `stop - start`.
unfoldable pub cut : (Text → ℕ) → ℕ → Text → ℕ → ℕ → ℕ → List TextUnit
unfolding bisect
cut count limit text zero start stop = []
cut count limit text (suc fuel) start stop =
    let low = bisect count limit text start (stop - (start + 1)) (start + 1) stop in
    let rest = cut count limit text fuel low stop in
    if ltb start stop then new_unit count text start low ∷ rest else []

abbrev pub each_piece : (ℕ → ℕ → List TextUnit) → List (ℕ × ℕ) → List TextUnit
each_piece f [] = []
each_piece f (p ∷ ps) = f p.0 p.1 ++ each_piece f ps

unfoldable pub fit : (Text → ℕ) → ℕ → Text → List Separator → ℕ → ℕ → List TextUnit
unfolding cut pieces slice
fit count limit text [] start stop =
    if leb (count (slice text start stop)) limit
    then new_unit count text start stop ∷ []
    else cut count limit text (stop - start) start stop
fit count limit text (separator ∷ others) start stop =
    let found = pieces text start stop separator in
    let whole = fit count limit text others start stop in
    let apart = each_piece (λ a b. fit count limit text others a b) found in
    if leb (count (slice text start stop)) limit
    then new_unit count text start stop ∷ []
    else if length found == 1
    then whole
    else apart

-- `_Splitter(text, count, limit).units()`
unfoldable pub units_of_text : (Text → ℕ) → ℕ → Text → List TextUnit
unfolding fit pieces
units_of_text count limit text =
    each_piece (λ a b. fit count limit text (sentence_end ∷ (line_break ∷ (space ∷ []))) a b)
      (pieces text 0 (length text) paragraph_break)
