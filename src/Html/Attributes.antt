-- ===== src/Html/Attributes.antt =====
-- api/services/prosemirror_html.py: the tags and attributes that are printed, against the lists.
use synapse_canvas.Base.{
  ℕ, ◌≡◌, refl, subst, Bool, true, false, ◌&&◌, Option, none, some, [], ◌∷◌, ◌++◌, ltb,
  if◌then◌else◌, min, max, arith, Bool-cases, Option-cases, inl, inr,
}
use synapse_canvas.Base.Texts.{text_eq}
use synapse_canvas.ProseMirror.Utf16.{Text}
use synapse_canvas.Html.{
  codes, MarkKind, link, bold, italic, underline, strike, code_mark, superscript, subscript,
  highlight, unknown_mark, Attrs, escape, digits, is_in, attribute, alignments, ordered_types,
  align, span, marker, has_scheme, mark_tag, link_attrs, or_one, heading_tag,
}
use synapse_canvas.Html.Safe.{
  is_clean, Clean, Tag, names, headings, styles, numbers, types, checks, links, relations, targets,
  SafeAttrs, no_attrs, one_attr, more_attrs, Clean-append, escape-Clean, digits-Clean, is_in-Clean,
}

abbrev all_clean : Text → Bool
all_clean [] = true
all_clean (c ∷ cs) = is_clean c && all_clean cs

pub clean : (t : Text) → all_clean t ≡ true → Clean t
clean [] h = tt
clean (c ∷ cs) h = (ground arith, clean cs (ground arith))

pub align-SafeAttrs : (attrs : Attrs) → SafeAttrs (align attrs)
unfolding align
align-SafeAttrs attrs = elim (Option-cases attrs.text_align) [
  | inl e ↦ rw e no_attrs
  | inr (a, e) ↦ elim (Bool-cases (is_in alignments a)) [
    | inr f ↦ rw e (rw f no_attrs)
    | inl f ↦ rw e (
        rw f (
          one_attr (codes "style") (codes "text-align: " ++ a) (styles a f) (
            Clean-append (codes "text-align: ") a (clean (codes "text-align: ") refl) (
              is_in-Clean alignments a
                (
                  clean (codes "left") refl,
                  (
                    clean (codes "center") refl,
                    (clean (codes "right") refl, (clean (codes "justify") refl, tt)),
                  ),
                )
                f))))
  ]
]

pub span-SafeAttrs :
    (name : Text) (value : Option ℕ)
    → is_in (codes "start" ∷ codes "colspan" ∷ codes "rowspan" ∷ []) name ≡ true
    → SafeAttrs (span name value)
unfolding span
span-SafeAttrs name none h = no_attrs
span-SafeAttrs name (some n) h = elim (Bool-cases (ltb 1 n)) [
  | inr e ↦ rw e no_attrs
  | inl e ↦ rw e (one_attr name (digits n n) (numbers name n n h) (digits-Clean n n))
]

pub marker-SafeAttrs : (kind : Option Text) → SafeAttrs (marker kind)
unfolding marker
marker-SafeAttrs none = no_attrs
marker-SafeAttrs (some kind) = elim (Bool-cases (is_in ordered_types kind)) [
  | inr e ↦ rw e no_attrs
  | inl e ↦ rw e (
      one_attr (codes "type") kind (types kind e) (
        is_in-Clean ordered_types kind
          ((refl, tt), ((refl, tt), ((refl, tt), ((refl, tt), ((refl, tt), tt))))) e))
]

pub link_attrs-SafeAttrs : (href : Text) → has_scheme href ≡ true → SafeAttrs (link_attrs href)
unfolding link_attrs
link_attrs-SafeAttrs href h =
    more_attrs (attribute (codes "href") (escape href)) _
      (one_attr (codes "href") (escape href) (links href h) (escape-Clean href))
      (more_attrs (attribute (codes "rel") (codes "noopener noreferrer nofollow"))
        (attribute (codes "target") (codes "_blank"))
        (one_attr (codes "rel") (codes "noopener noreferrer nofollow") relations
          (clean (codes "noopener noreferrer nofollow") refl))
        (one_attr (codes "target") (codes "_blank") targets (clean (codes "_blank") refl)))

pub mark_tag-Tag : (kind : MarkKind) (tag : Text) → mark_tag kind ≡ some tag → Tag tag
unfolding text_eq
mark_tag-Tag link tag h = absurd (ground arith)
mark_tag-Tag bold tag h = subst Tag (ground arith) (names (codes "strong") refl)
mark_tag-Tag italic tag h = subst Tag (ground arith) (names (codes "em") refl)
mark_tag-Tag underline tag h = subst Tag (ground arith) (names (codes "u") refl)
mark_tag-Tag strike tag h = subst Tag (ground arith) (names (codes "s") refl)
mark_tag-Tag code_mark tag h = subst Tag (ground arith) (names (codes "code") refl)
mark_tag-Tag superscript tag h = subst Tag (ground arith) (names (codes "sup") refl)
mark_tag-Tag subscript tag h = subst Tag (ground arith) (names (codes "sub") refl)
mark_tag-Tag highlight tag h = subst Tag (ground arith) (names (codes "mark") refl)
mark_tag-Tag unknown_mark tag h = absurd (ground arith)

pub heading_tag-Tag : (attrs : Attrs) → Tag (heading_tag attrs)
unfolding heading_tag
heading_tag-Tag attrs = headings (min (max (or_one attrs.level) 1) 6) (ground arith) (ground arith)

pub cell_spans-SafeAttrs :
    (attrs : Attrs)
    → SafeAttrs (span (codes "colspan") attrs.colspan ++ span (codes "rowspan") attrs.rowspan)
unfolding text_eq
cell_spans-SafeAttrs attrs =
    more_attrs (span (codes "colspan") attrs.colspan) (span (codes "rowspan") attrs.rowspan)
      (span-SafeAttrs (codes "colspan") attrs.colspan refl)
      (span-SafeAttrs (codes "rowspan") attrs.rowspan refl)

pub checked-SafeAttrs :
    (b : Bool)
    → SafeAttrs (attribute (codes "data-checked") (if b then codes "true" else codes "false"))
unfolding text_eq
checked-SafeAttrs true =
    one_attr (codes "data-checked") (codes "true") (checks (codes "true") refl)
      (clean (codes "true") refl)
checked-SafeAttrs false =
    one_attr (codes "data-checked") (codes "false") (checks (codes "false") refl)
      (clean (codes "false") refl)
