-- ===== src/Html/Tests.antt =====
-- A heading with a link whose text holds a tag, and a link to a script.
use synapse_canvas.Base.{◌≡◌, refl, false, none, some, [], ◌∷◌}
use synapse_canvas.ProseMirror.Utf16.{Text}
use synapse_canvas.Html.{
  codes, heading, text_node, link, bold, Attrs, Node, node, nil, cons, escape_char, escape,
  attribute, open_tag, element, align, starts_with, has_scheme, link_attrs, with_mark, marked,
  inline, heading_tag, block, blocks, to_html, unknown,
}
use synapse_canvas.Html.Safe.{Safe}
use synapse_canvas.Html.Output.{to_html-Safe}

abbrev bare : Attrs
bare = record {
  text_align = none;
  level = some 2;
  start = none;
  list_type = none;
  checked = false;
  colspan = none;
  rowspan = none;
}

abbrev linked : Text → Text → Node
linked href shown =
    node text_node bare shown
      (record { kind = bold; href = none } ∷ record { kind = link; href = some href } ∷ []) nil

abbrev page : Node
page = node unknown bare [] [] (
    cons
      (node heading bare [] [] (
        cons (linked (codes "HTTP://a/?b&c") (codes "<i>"))
          (cons (linked (codes "javascript:x") (codes "y")) nil)))
      nil)

page-printed :
    to_html page
    ≡ codes
        "<h2><strong><a href=\"HTTP://a/?b&amp;c\" rel=\"noopener noreferrer nofollow\" target=\"_blank\">&lt;i&gt;</a></strong><strong>y</strong></h2>"
unfolding to_html blocks block element open_tag heading_tag align inline marked with_mark has_scheme
    starts_with link_attrs attribute escape escape_char
page-printed = refl

to_html-Safe_example : Safe (to_html page)
to_html-Safe_example = to_html-Safe page
