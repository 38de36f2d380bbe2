-- ===== src/ProseMirror/Edit/Inline.antt =====
-- api/services/prosemirror.py: `inline_nodes`, `paragraphs`, `_slice_inline`,
-- `_normalize_inline` and `_inline_text`, and the string methods of Python that they call.
use mathlib.Core.List.{reverse}
use synapse_canvas.Base.{
  ℕ, zero, suc, ◌+◌, ◌-◌, List, [], ◌∷◌, ◌++◌, Bool, true, false, ◌&&◌, ◌||◌, Option, none, some,
  ltb, leb, ◌==◌, if◌then◌else◌, take, drop, min, max,
}
use synapse_canvas.ProseMirror.Utf16.{Text, utf16_index}
use synapse_canvas.ProseMirror.Node.{
  Node, text, elem, nil, no_attrs, of_list, node_size, paragraph, hard_break,
}

-- `str.isspace` of one code point, which `strip` and `\s` go by too.
unfoldable pub is_space : ℕ → Bool
is_space c =
    (leb 9 c && leb c 13)
    || (leb 28 c && leb c 32)
    || c == 0x85
    || c == 0xA0
    || c == 0x1680
    || (leb 0x2000 c && leb c 0x200A)
    || c == 0x2028
    || c == 0x2029
    || c == 0x202F
    || c == 0x205F
    || c == 0x3000

-- `text.lstrip(…)`, `rstrip`, `strip` by a test on code points.
abbrev pub lstrip_by : (ℕ → Bool) → Text → Text
lstrip_by p [] = []
lstrip_by p (c ∷ t) = if p c then lstrip_by p t else c ∷ t

abbrev pub rstrip_by : (ℕ → Bool) → Text → Text
rstrip_by p t = reverse (lstrip_by p (reverse t))

unfoldable pub lstrip : Text → Text
unfolding is_space
lstrip = lstrip_by is_space

unfoldable pub rstrip : Text → Text
unfolding is_space
rstrip = rstrip_by is_space

unfoldable pub strip : Text → Text
unfolding lstrip rstrip
strip t = lstrip (rstrip t)

-- The characters through the last newline of the whitespace that `t` begins with; `seen` of them
-- lie behind, `best` through the last newline so far.
blank_run : Text → ℕ → ℕ → ℕ
unfolding is_space
blank_run [] seen best = best
blank_run (c ∷ t) seen best =
    let further = blank_run t (seen + 1) (if c == b'\n' then seen + 1 else best) in
    if is_space c then further else best

-- `re.sub(r"\n\s*\n", "\n", text)`: behind a newline, `skip` characters are left out.
collapse_from : ℕ → Text → Text
unfolding blank_run
collapse_from skip [] = []
collapse_from (suc skip) (c ∷ t) = collapse_from skip t
collapse_from zero (c ∷ t) = c ∷ collapse_from (if c == b'\n' then blank_run t 0 0 else 0) t

unfoldable pub collapse_blank : Text → Text
unfolding collapse_from
collapse_blank = collapse_from 0

-- `text.split("\n")`: the line so far comes first.
abbrev pub add_char : ℕ → List Text → List Text
add_char c [] = (c ∷ []) ∷ []
add_char c (line ∷ lines) = (c ∷ line) ∷ lines

unfoldable pub split_lines : Text → List Text
split_lines [] = [] ∷ []
split_lines (c ∷ t) =
    let lines = split_lines t in if c == b'\n' then [] ∷ lines else add_char c lines

abbrev pub break_node : Node
break_node = elem hard_break no_attrs nil

abbrev pub line_nodes : Text → List Node
line_nodes [] = []
line_nodes (c ∷ t) = text (c ∷ t) [] ∷ []

-- The loop of `inline_nodes`, `first` at index 0.
unfoldable pub lines_nodes : Bool → List Text → List Node
lines_nodes first [] = []
lines_nodes first (line ∷ lines) =
    (if first then [] else break_node ∷ []) ++ (line_nodes line ++ lines_nodes false lines)

unfoldable pub inline_nodes : Text → Bool → List Node
unfolding lines_nodes split_lines
inline_nodes t code = if code then line_nodes t else lines_nodes true (split_lines t)

-- The length of `[ \t]*\n` at the head of `t`, 0 where it does not match.
blank_line : Text → ℕ → ℕ
blank_line [] seen = 0
blank_line (c ∷ t) seen =
    let further = blank_line t (seen + 1) in
    if c == b'\n' then seen + 1 else if c == b' ' || c == b'\t' then further else 0

-- `re.split(r"\n[ \t]*\n", text)`
split_blocks_from : ℕ → Text → List Text
unfolding blank_line
split_blocks_from skip [] = [] ∷ []
split_blocks_from (suc skip) (c ∷ t) = split_blocks_from skip t
split_blocks_from zero (c ∷ t) =
    let gap = if c == b'\n' then blank_line t 0 else 0 in
    let rest = split_blocks_from gap t in if ltb 0 gap then [] ∷ rest else add_char c rest

abbrev pub without : ℕ → Text → Text
without c [] = []
without c (d ∷ t) = if d == c then without c t else d ∷ without c t

abbrev pub strip_newlines : Text → Text
strip_newlines t = lstrip_by (λ c. c == b'\n') (rstrip_by (λ c. c == b'\n') t)

abbrev pub is_empty {ℓ} : {A : Type ℓ} → List A → Bool
is_empty [] = true
is_empty (x ∷ xs) = false

block_paragraphs : List Text → List Node
unfolding strip inline_nodes
block_paragraphs [] = []
block_paragraphs (block ∷ blocks) =
    let rest = block_paragraphs blocks in
    if is_empty (strip block)
    then rest
    else elem paragraph no_attrs (of_list (inline_nodes (strip_newlines block) false)) ∷ rest

unfoldable pub paragraphs : Text → List Node
unfolding block_paragraphs split_blocks_from
paragraphs t = block_paragraphs (split_blocks_from 0 (strip_newlines (without b'\r' t)))

-- `text[a:b]`
abbrev pub text_slice : ℕ → ℕ → Text → Text
text_slice a b t = take (b - a) (drop a t)

unfoldable pub slice_node : Node → ℕ → ℕ → Node
slice_node (text t marks) low high =
    text (text_slice (utf16_index t low) (utf16_index t high) t) marks
slice_node (elem k attrs c) low high = elem k attrs c

abbrev pub slice_high : ℕ → ℕ → Option ℕ → ℕ
slice_high pos size none = pos + size
slice_high pos size (some stop) = min stop (pos + size)

-- The loop of `_slice_inline`, at `pos`.
unfoldable pub slice_from : ℕ → List Node → ℕ → Option ℕ → List Node
slice_from pos [] start stop = []
slice_from pos (child ∷ rest) start stop =
    let low = max start pos in
    let high = slice_high pos (node_size child) stop in
    let later = slice_from (pos + node_size child) rest start stop in
    if ltb low high then slice_node child (low - pos) (high - pos) ∷ later else later

unfoldable pub slice_inline : List Node → ℕ → Option ℕ → List Node
unfolding slice_from
slice_inline = slice_from 0

abbrev pub marks_eq : List ℕ → List ℕ → Bool
marks_eq [] [] = true
marks_eq (m ∷ ms) (n ∷ ns) = m == n && marks_eq ms ns
marks_eq _ _ = false

-- One round of `_normalize_inline`; the head of `out` is `out[-1]`.
unfoldable pub push_inline : List Node → Node → List Node
push_inline out (text [] marks) = out
push_inline (text s ms ∷ out) (text (c ∷ t) marks) =
    if marks_eq ms marks then text (s ++ c ∷ t) ms ∷ out else text (c ∷ t) marks ∷ text s ms ∷ out
push_inline out n = n ∷ out

unfoldable pub normalize_from : List Node → List Node → List Node
unfolding push_inline
normalize_from out [] = reverse out
normalize_from out (n ∷ nodes) = normalize_from (push_inline out n) nodes

unfoldable pub normalize_inline : List Node → List Node
unfolding normalize_from
normalize_inline = normalize_from []

unfoldable pub inline_text : List Node → Text
inline_text [] = []
inline_text (text t marks ∷ nodes) = t ++ inline_text nodes
inline_text (elem k attrs c ∷ nodes) = b'\n' ∷ inline_text nodes
