-- ===== src/Html.antt =====
-- api/services/prosemirror_html.py: a document printed as HTML for reading. The document is JSON of
-- any origin; of a node, the keys that the printer reads are here.
pub mod Safe
pub mod Attributes
pub mod Output
mod Tests
use Prim.Native.Char.{code}
use Prim.Native.String.{String}
use synapse_canvas.Base.{
  ℕ, zero, suc, ◌+◌, ◌/◌, ◌%◌, Bool, true, false, not, ◌&&◌, ◌||◌, Option, none, some, List, [],
  ◌∷◌, ◌++◌, ltb, leb, ◌==◌, if◌then◌else◌, min, max, any,
}
use synapse_canvas.Base.Texts.{text_eq}
use synapse_canvas.ProseMirror.Utf16.{Text}

-- The code points of a text: `String` has its own `[]` and `∷`.
abbrev pub codes : String → Text
codes String.[] = []
codes (String.◌∷◌ c s) = code c ∷ codes s

pub data Kind : Type 0 where
  paragraph heading blockquote bullet_list ordered_list list_item task_list task_item : Kind
  code_block horizontal_rule page_break table table_row table_cell table_header : Kind
  hard_break text_node unknown : Kind

pub data MarkKind : Type 0 where
  link bold italic underline strike code_mark superscript subscript highlight : MarkKind
  unknown_mark : MarkKind

-- `none` is an absent key, or a value that is not of the kind read.
pub record Attrs : Type 0 where
  pub text_align : Option Text
  pub level : Option ℕ
  pub start : Option ℕ
  pub list_type : Option Text
  pub checked : Bool
  pub colspan : Option ℕ
  pub rowspan : Option ℕ

pub record Mark : Type 0 where
  pub kind : MarkKind
  pub href : Option Text

mutual
  pub data Node : Type 0 where
    node : Kind → Attrs → Text → List Mark → Nodes → Node

  pub data Nodes : Type 0 where
    nil : Nodes
    cons : Node → Nodes → Nodes

-- `html.escape`
unfoldable pub escape_char : ℕ → Text
escape_char c =
    if c == b'&'
    then codes "&amp;"
    else if c == b'<'
    then codes "&lt;"
    else if c == b'>'
    then codes "&gt;"
    else if c == b'"'
    then codes "&quot;"
    else if c == 39
    then codes "&#x27;"
    else c ∷ []

unfoldable pub escape : Text → Text
unfolding escape_char
escape [] = []
escape (c ∷ cs) = escape_char c ++ escape cs

-- `str` of a number; `fuel` at least its count of digits.
unfoldable pub digits : ℕ → ℕ → Text
digits zero n = []
digits (suc fuel) n =
    let high = digits fuel (n / 10) in
    if ltb n 10 then (48 + n) ∷ [] else high ++ ((48 + n % 10) ∷ [])

abbrev pub is_in : List Text → Text → Bool
is_in names name = any (text_eq name) names

-- ` name="value"`
unfoldable pub attribute : Text → Text → Text
attribute name value = codes " " ++ (name ++ (codes "=\"" ++ (value ++ codes "\"")))

unfoldable pub open_tag : Text → Text → Text
open_tag name attrs = codes "<" ++ (name ++ (attrs ++ codes ">"))

unfoldable pub element : Text → Text → Text → Text
unfolding open_tag
element name attrs inner = open_tag name attrs ++ (inner ++ (codes "</" ++ (name ++ codes ">")))

-- `_ALIGNMENTS`
abbrev pub alignments : List Text
alignments = codes "left" ∷ codes "center" ∷ codes "right" ∷ codes "justify" ∷ []

-- `_ORDERED_TYPES`
abbrev pub ordered_types : List Text
ordered_types = codes "1" ∷ codes "a" ∷ codes "A" ∷ codes "i" ∷ codes "I" ∷ []

-- `_LINK_SCHEMES`
abbrev pub link_schemes : List Text
link_schemes = codes "http://" ∷ codes "https://" ∷ codes "mailto:" ∷ []

unfoldable pub align : Attrs → Text
unfolding attribute text_eq
align attrs = elim attrs.text_align [
  | none ↦ []
  | some alignment ↦
      if is_in alignments alignment
      then attribute (codes "style") (codes "text-align: " ++ alignment)
      else []
]

unfoldable pub span : Text → Option ℕ → Text
unfolding attribute digits
span name none = []
span name (some number) = if ltb 1 number then attribute name (digits number number) else []

unfoldable pub marker : Option Text → Text
unfolding attribute text_eq
marker none = []
marker (some kind) = if is_in ordered_types kind then attribute (codes "type") kind else []

abbrev pub lower : ℕ → ℕ
lower c = if leb b'A' c && leb c b'Z' then c + 32 else c

-- `href.lower().startswith`
unfoldable pub starts_with : Text → Text → Bool
starts_with [] text = true
starts_with (p ∷ ps) [] = false
starts_with (p ∷ ps) (c ∷ cs) = (lower c == p) && starts_with ps cs

unfoldable pub has_scheme : Text → Bool
unfolding starts_with
has_scheme href = any (λ scheme. starts_with scheme href) link_schemes

-- `_MARKS`
abbrev pub mark_tag : MarkKind → Option Text
mark_tag bold = some (codes "strong")
mark_tag italic = some (codes "em")
mark_tag underline = some (codes "u")
mark_tag strike = some (codes "s")
mark_tag code_mark = some (codes "code")
mark_tag superscript = some (codes "sup")
mark_tag subscript = some (codes "sub")
mark_tag highlight = some (codes "mark")
mark_tag _ = none

abbrev pub is_link : MarkKind → Bool
is_link link = true
is_link _ = false

unfoldable pub link_attrs : Text → Text
unfolding attribute escape
link_attrs href =
    attribute (codes "href") (escape href)
    ++ (attribute (codes "rel") (codes "noopener noreferrer nofollow")
        ++ attribute (codes "target") (codes "_blank"))

-- One mark around the text.
unfoldable pub with_mark : Mark → Text → Text
unfolding has_scheme link_attrs element
with_mark mark html =
    if is_link mark.kind
    then (elim mark.href [
      | none ↦ html
      | some href ↦ if has_scheme href then element (codes "a") (link_attrs href) html else html
    ])
    else (elim (mark_tag mark.kind) [ none ↦ html | some tag ↦ element tag [] html ])

-- The last mark is the innermost.
unfoldable pub marked : Text → List Mark → Text
unfolding with_mark
marked html [] = html
marked html (m ∷ ms) = with_mark m (marked html ms)

unfoldable pub inline : Nodes → Text
unfolding open_tag escape marked
inline nil = []
inline (cons (node hard_break attrs text marks content) ns) = open_tag (codes "br") [] ++ inline ns
inline (cons (node text_node attrs text marks content) ns) = marked (escape text) marks ++ inline ns
inline (cons (node _ attrs text marks content) ns) = inline ns

-- The texts of a code block; a child without a text has the empty one.
abbrev pub texts_of : Nodes → Text
texts_of nil = []
texts_of (cons (node kind attrs text marks content) ns) = text ++ texts_of ns

abbrev pub or_one : Option ℕ → ℕ
or_one none = 1
or_one (some n) = if n == 0 then 1 else n

unfoldable pub heading_tag : Attrs → Text
heading_tag attrs = codes "h" ++ ((48 + min (max (or_one attrs.level) 1) 6) ∷ [])

unfoldable mutual
  unfolding open_tag element align inline heading_tag span marker attribute escape

  pub block : Node → Text
  block (node paragraph attrs text marks content) =
      element (codes "p") (align attrs) (inline content)
  block (node heading attrs text marks content) =
      element (heading_tag attrs) (align attrs) (inline content)
  block (node blockquote attrs text marks content) =
      element (codes "blockquote") [] (blocks content)
  block (node bullet_list attrs text marks content) = element (codes "ul") [] (blocks content)
  block (node ordered_list attrs text marks content) =
      element (codes "ol") (span (codes "start") attrs.start ++ marker attrs.list_type)
        (blocks content)
  block (node list_item attrs text marks content) = element (codes "li") [] (blocks content)
  block (node task_list attrs text marks content) =
      element (codes "ul") (attribute (codes "class") (codes "task-list")) (blocks content)
  block (node task_item attrs text marks content) =
      element (codes "li")
        (attribute (codes "data-checked") (if attrs.checked then codes "true" else codes "false"))
        (blocks content)
  block (node code_block attrs text marks content) =
      element (codes "pre") [] (element (codes "code") [] (escape (texts_of content)))
  block (node horizontal_rule attrs text marks content) = open_tag (codes "hr") []
  block (node page_break attrs text marks content) =
      open_tag (codes "hr") (attribute (codes "class") (codes "page-break"))
  block (node table attrs text marks content) =
      element (codes "table") [] (element (codes "tbody") [] (blocks content))
  block (node table_row attrs text marks content) = element (codes "tr") [] (blocks content)
  block (node table_cell attrs text marks content) =
      element (codes "td")
        (span (codes "colspan") attrs.colspan ++ span (codes "rowspan") attrs.rowspan)
        (blocks content)
  block (node table_header attrs text marks content) =
      element (codes "th")
        (span (codes "colspan") attrs.colspan ++ span (codes "rowspan") attrs.rowspan)
        (blocks content)
  block (node hard_break attrs text marks content) = []
  block (node text_node attrs text marks content) = []
  block (node unknown attrs text marks content) = []

  pub blocks : Nodes → Text
  blocks nil = []
  blocks (cons n ns) = block n ++ blocks ns

unfoldable pub to_html : Node → Text
unfolding blocks
to_html (node kind attrs text marks content) = blocks content
