-- ===== src/Html/Safe.antt =====
-- The grammar of safe output for api/services/prosemirror_html.py: nested elements of a fixed list,
-- with fixed attributes, around escaped text.
use synapse_canvas.Base.{
  ℕ, zero, suc, ◌+◌, ◌/◌, ◌%◌, ◌≤◌, ◌≡◌, refl, sym, subst, Bool, true, not, ◌&&◌, List, [], ◌∷◌,
  ◌++◌, ltb, ◌==◌, All, arith, Bool-cases, inl, inr,
}
use synapse_canvas.Base.Texts.{text_eq, text_eq_sound}
use synapse_canvas.ProseMirror.Utf16.{Text}
use synapse_canvas.Html.{
  codes, escape_char, escape, digits, is_in, attribute, open_tag, element, alignments,
  ordered_types, has_scheme,
}

-- Neither an angle bracket nor a quotation mark.
abbrev pub is_clean : ℕ → Bool
is_clean c = not (c == b'<') && not (c == b'>') && not (c == b'"') && not (c == 39)

abbrev pub Clean : Text → Type 0
Clean t = All (λ c. is_clean c ≡ true) t

-- The elements that enclose others, by their names.
pub data Tag : Text → Type 0 where
  names :
      (name : Text)
      → is_in
          (codes "p"
            ∷ codes "blockquote"
            ∷ codes "ul"
            ∷ codes "ol"
            ∷ codes "li"
            ∷ codes "pre"
            ∷ codes "code"
            ∷ codes "table"
            ∷ codes "tbody"
            ∷ codes "tr"
            ∷ codes "td"
            ∷ codes "th"
            ∷ codes "strong"
            ∷ codes "em"
            ∷ codes "u"
            ∷ codes "s"
            ∷ codes "sup"
            ∷ codes "sub"
            ∷ codes "mark"
            ∷ codes "a"
            ∷ [])
          name
        ≡ true
      → Tag name
  headings : (level : ℕ) → 1 ≤ level → level ≤ 6 → Tag (codes "h" ++ ((48 + level) ∷ []))

pub data VoidTag : Text → Type 0 where
  line_break : VoidTag (codes "br")
  rule : VoidTag (codes "hr")

-- The attributes, by their names and values.
pub data Attribute : Text → Text → Type 0 where
  styles :
      (alignment : Text)
      → is_in alignments alignment ≡ true
      → Attribute (codes "style") (codes "text-align: " ++ alignment)
  numbers :
      (name : Text) (number fuel : ℕ)
      → is_in (codes "start" ∷ codes "colspan" ∷ codes "rowspan" ∷ []) name ≡ true
      → Attribute name (digits fuel number)
  types : (kind : Text) → is_in ordered_types kind ≡ true → Attribute (codes "type") kind
  classes :
      (name : Text)
      → is_in (codes "task-list" ∷ codes "page-break" ∷ []) name ≡ true
      → Attribute (codes "class") name
  checks :
      (value : Text)
      → is_in (codes "true" ∷ codes "false" ∷ []) value ≡ true
      → Attribute (codes "data-checked") value
  links : (href : Text) → has_scheme href ≡ true → Attribute (codes "href") (escape href)
  relations : Attribute (codes "rel") (codes "noopener noreferrer nofollow")
  targets : Attribute (codes "target") (codes "_blank")

pub data SafeAttrs : Text → Type 0 where
  no_attrs : SafeAttrs []
  one_attr :
      (name value : Text) → Attribute name value → Clean value → SafeAttrs (attribute name value)
  more_attrs : (a b : Text) → SafeAttrs a → SafeAttrs b → SafeAttrs (a ++ b)

pub data Safe : Text → Type 0 where
  nothing : Safe []
  words : (t : Text) → Clean t → Safe t
  follows : (a b : Text) → Safe a → Safe b → Safe (a ++ b)
  void : (name attrs : Text) → VoidTag name → SafeAttrs attrs → Safe (open_tag name attrs)
  encloses :
      (name attrs inner : Text)
      → Tag name
      → SafeAttrs attrs
      → Safe inner
      → Safe (element name attrs inner)

pub Clean-append : (a b : Text) → Clean a → Clean b → Clean (a ++ b)
Clean-append [] b h k = k
Clean-append (c ∷ cs) b (h, hs) k = (h, Clean-append cs b hs k)

escape_char-Clean : (c : ℕ) → Clean (escape_char c)
unfolding escape_char
escape_char-Clean c = elim (Bool-cases (c == b'&')) [
  | inl e ↦ rw e (refl, (refl, (refl, (refl, (refl, tt)))))
  | inr e ↦ elim (Bool-cases (c == b'<')) [
    | inl f ↦ rw e (rw f (refl, (refl, (refl, (refl, tt)))))
    | inr f ↦ elim (Bool-cases (c == b'>')) [
      | inl g ↦ rw e (rw f (rw g (refl, (refl, (refl, (refl, tt))))))
      | inr g ↦ elim (Bool-cases (c == b'"')) [
        | inl h ↦ rw e (rw f (rw g (rw h (refl, (refl, (refl, (refl, (refl, (refl, tt)))))))))
        | inr h ↦ elim (Bool-cases (c == 39)) [
          | inl i ↦
              rw e (rw f (rw g (rw h (rw i (refl, (refl, (refl, (refl, (refl, (refl, tt))))))))))
          | inr i ↦ rw e (rw f (rw g (rw h (rw i (ground arith, tt)))))
        ]
      ]
    ]
  ]
]

pub escape-Clean : (t : Text) → Clean (escape t)
unfolding escape
escape-Clean [] = tt
escape-Clean (c ∷ cs) =
    Clean-append (escape_char c) (escape cs) (escape_char-Clean c) (escape-Clean cs)

pub digits-Clean : (fuel n : ℕ) → Clean (digits fuel n)
unfolding digits
digits-Clean zero n = tt
digits-Clean (suc fuel) n = elim (Bool-cases (ltb n 10)) [
  | inl e ↦ rw e (ground arith, tt)
  | inr e ↦ rw e (
      Clean-append (digits fuel (n / 10)) ((48 + n % 10) ∷ []) (digits-Clean fuel (n / 10))
        (ground arith, tt))
]

-- A text of a list of clean texts is clean.
pub is_in-Clean : (list : List Text) (t : Text) → All Clean list → is_in list t ≡ true → Clean t
is_in-Clean [] t clean h = absurd (ground arith)
is_in-Clean (x ∷ xs) t (c, cs) h = elim (Bool-cases (text_eq t x)) [
  | inl e ↦ subst Clean (sym (text_eq_sound t x e)) c
  | inr e ↦ is_in-Clean xs t cs (ground arith)
]
