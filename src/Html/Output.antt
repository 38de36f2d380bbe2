-- ===== src/Html/Output.antt =====
-- api/services/prosemirror_html.py: what `to_html` prints, against the grammar of safe output.
use synapse_canvas.Base.{
  refl, List, [], ◌∷◌, ◌++◌, if◌then◌else◌, Bool-cases, Option-cases, inl, inr,
}
use synapse_canvas.Base.Texts.{text_eq}
use synapse_canvas.ProseMirror.Utf16.{Text}
use synapse_canvas.Html.{
  codes, paragraph, heading, blockquote, bullet_list, ordered_list, list_item, task_list, task_item,
  code_block, horizontal_rule, page_break, table, table_row, table_cell, table_header, hard_break,
  text_node, unknown, Mark, Node, node, Nodes, nil, cons, escape, attribute, open_tag, element,
  align, span, marker, has_scheme, mark_tag, is_link, link_attrs, with_mark, marked, inline,
  texts_of, heading_tag, block, blocks, to_html,
}
use synapse_canvas.Html.Safe.{
  Tag, names, line_break, rule, classes, no_attrs, one_attr, more_attrs, Safe, nothing, words,
  follows, void, encloses, escape-Clean,
}
use synapse_canvas.Html.Attributes.{
  clean, align-SafeAttrs, span-SafeAttrs, marker-SafeAttrs, link_attrs-SafeAttrs, mark_tag-Tag,
  heading_tag-Tag, cell_spans-SafeAttrs, checked-SafeAttrs,
}

with_mark-Safe : (m : Mark) (html : Text) → Safe html → Safe (with_mark m html)
unfolding with_mark text_eq
with_mark-Safe m html h = elim (Bool-cases (is_link m.kind)) [
  | inl e ↦ elim (Option-cases m.href) [
    | inl f ↦ rw e (rw f h)
    | inr (href, f) ↦ elim (Bool-cases (has_scheme href)) [
      | inr g ↦ rw e (rw f (rw g h))
      | inl g ↦ rw e (
          rw f (
            rw g (
              encloses (codes "a") (link_attrs href) html (names (codes "a") refl)
                (link_attrs-SafeAttrs href g) h)))
    ]
  ]
  | inr e ↦ elim (Option-cases (mark_tag m.kind)) [
    | inl f ↦ rw e (rw f h)
    | inr (tag, f) ↦ rw e (rw f (encloses tag [] html (mark_tag-Tag m.kind tag f) no_attrs h))
  ]
]

marked-Safe : (html : Text) (marks : List Mark) → Safe html → Safe (marked html marks)
unfolding marked
marked-Safe html [] h = h
marked-Safe html (m ∷ ms) h = with_mark-Safe m (marked html ms) (marked-Safe html ms h)

inline-Safe : (ns : Nodes) → Safe (inline ns)
unfolding inline
inline-Safe nil = nothing
inline-Safe (cons (node hard_break attrs text marks content) ns) =
    follows (open_tag (codes "br") []) (inline ns) (void (codes "br") [] line_break no_attrs)
      (inline-Safe ns)
inline-Safe (cons (node text_node attrs text marks content) ns) =
    follows (marked (escape text) marks) (inline ns)
      (marked-Safe (escape text) marks (words (escape text) (escape-Clean text))) (inline-Safe ns)
inline-Safe (cons (node paragraph attrs text marks content) ns) = inline-Safe ns
inline-Safe (cons (node heading attrs text marks content) ns) = inline-Safe ns
inline-Safe (cons (node blockquote attrs text marks content) ns) = inline-Safe ns
inline-Safe (cons (node bullet_list attrs text marks content) ns) = inline-Safe ns
inline-Safe (cons (node ordered_list attrs text marks content) ns) = inline-Safe ns
inline-Safe (cons (node list_item attrs text marks content) ns) = inline-Safe ns
inline-Safe (cons (node task_list attrs text marks content) ns) = inline-Safe ns
inline-Safe (cons (node task_item attrs text marks content) ns) = inline-Safe ns
inline-Safe (cons (node code_block attrs text marks content) ns) = inline-Safe ns
inline-Safe (cons (node horizontal_rule attrs text marks content) ns) = inline-Safe ns
inline-Safe (cons (node page_break attrs text marks content) ns) = inline-Safe ns
inline-Safe (cons (node table attrs text marks content) ns) = inline-Safe ns
inline-Safe (cons (node table_row attrs text marks content) ns) = inline-Safe ns
inline-Safe (cons (node table_cell attrs text marks content) ns) = inline-Safe ns
inline-Safe (cons (node table_header attrs text marks content) ns) = inline-Safe ns
inline-Safe (cons (node unknown attrs text marks content) ns) = inline-Safe ns

plain : (name inner : Text) → Tag name → Safe inner → Safe (element name [] inner)
plain name inner tag h = encloses name [] inner tag no_attrs h

mutual
  unfolding block blocks text_eq

  block-Safe : (n : Node) → Safe (block n)
  block-Safe (node paragraph attrs text marks content) =
      encloses (codes "p") (align attrs) (inline content) (names (codes "p") refl)
        (align-SafeAttrs attrs) (inline-Safe content)
  block-Safe (node heading attrs text marks content) =
      encloses (heading_tag attrs) (align attrs) (inline content) (heading_tag-Tag attrs)
        (align-SafeAttrs attrs) (inline-Safe content)
  block-Safe (node blockquote attrs text marks content) =
      plain (codes "blockquote") (blocks content) (names (codes "blockquote") refl)
        (blocks-Safe content)
  block-Safe (node bullet_list attrs text marks content) =
      plain (codes "ul") (blocks content) (names (codes "ul") refl) (blocks-Safe content)
  block-Safe (node ordered_list attrs text marks content) =
      encloses (codes "ol") (span (codes "start") attrs.start ++ marker attrs.list_type)
        (blocks content) (names (codes "ol") refl)
        (more_attrs (span (codes "start") attrs.start) (marker attrs.list_type)
          (span-SafeAttrs (codes "start") attrs.start refl) (marker-SafeAttrs attrs.list_type))
        (blocks-Safe content)
  block-Safe (node list_item attrs text marks content) =
      plain (codes "li") (blocks content) (names (codes "li") refl) (blocks-Safe content)
  block-Safe (node task_list attrs text marks content) =
      encloses (codes "ul") (attribute (codes "class") (codes "task-list")) (blocks content)
        (names (codes "ul") refl)
        (one_attr (codes "class") (codes "task-list") (classes (codes "task-list") refl)
          (clean (codes "task-list") refl))
        (blocks-Safe content)
  block-Safe (node task_item attrs text marks content) =
      encloses (codes "li")
        (attribute (codes "data-checked") (if attrs.checked then codes "true" else codes "false"))
        (blocks content) (names (codes "li") refl) (checked-SafeAttrs attrs.checked)
        (blocks-Safe content)
  block-Safe (node code_block attrs text marks content) =
      plain (codes "pre") (element (codes "code") [] (escape (texts_of content)))
        (names (codes "pre") refl)
        (plain (codes "code") (escape (texts_of content)) (names (codes "code") refl)
          (words (escape (texts_of content)) (escape-Clean (texts_of content))))
  block-Safe (node horizontal_rule attrs text marks content) = void (codes "hr") [] rule no_attrs
  block-Safe (node page_break attrs text marks content) =
      void (codes "hr") (attribute (codes "class") (codes "page-break")) rule (
        one_attr (codes "class") (codes "page-break") (classes (codes "page-break") refl)
          (clean (codes "page-break") refl))
  block-Safe (node table attrs text marks content) =
      plain (codes "table") (element (codes "tbody") [] (blocks content))
        (names (codes "table") refl)
        (plain (codes "tbody") (blocks content) (names (codes "tbody") refl) (blocks-Safe content))
  block-Safe (node table_row attrs text marks content) =
      plain (codes "tr") (blocks content) (names (codes "tr") refl) (blocks-Safe content)
  block-Safe (node table_cell attrs text marks content) =
      encloses (codes "td")
        (span (codes "colspan") attrs.colspan ++ span (codes "rowspan") attrs.rowspan)
        (blocks content) (names (codes "td") refl) (cell_spans-SafeAttrs attrs)
        (blocks-Safe content)
  block-Safe (node table_header attrs text marks content) =
      encloses (codes "th")
        (span (codes "colspan") attrs.colspan ++ span (codes "rowspan") attrs.rowspan)
        (blocks content) (names (codes "th") refl) (cell_spans-SafeAttrs attrs)
        (blocks-Safe content)
  block-Safe (node hard_break attrs text marks content) = nothing
  block-Safe (node text_node attrs text marks content) = nothing
  block-Safe (node unknown attrs text marks content) = nothing

  blocks-Safe : (ns : Nodes) → Safe (blocks ns)
  blocks-Safe nil = nothing
  blocks-Safe (cons n ns) = follows (block n) (blocks ns) (block-Safe n) (blocks-Safe ns)

-- The HTML of any document, whatever its texts, marks and attributes say, is in the grammar of safe
-- output: the elements and attributes of a fixed list, each element closed, around text without
-- angle brackets and quotation marks; attribute values are quoted and hold none; and a link's
-- address begins with a scheme of the list.
pub to_html-Safe : (document : Node) → Safe (to_html document)
unfolding to_html
to_html-Safe (node kind attrs text marks content) = blocks-Safe content
