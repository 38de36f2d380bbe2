-- ===== src/ProseMirror/Node.antt =====
-- api/services/prosemirror.py: nodes as JSON values, `node_size`, `content_size`, `is_textblock`.
-- A node with no "content" key and one with an empty list are read alike everywhere in that file
-- (`node.get("content", [])`), and are one value here. So are absent and empty marks. A mark is
-- compared as a whole only, and a number stands for it.
use synapse_canvas.Base.{
  ℕ, ◌+◌, ◌≡◌, refl, ap, List, [], ◌∷◌, ◌++◌, arith, Bool, true, false, ◌||◌, Option, none, any,
}
use synapse_canvas.ProseMirror.Utf16.{Text, utf16_len}

-- The "type" strings that the file tells apart, except "text".
pub data Kind : Type 0 where
  hard_break horizontal_rule page_break image : Kind
  paragraph heading code_block : Kind
  bullet_list ordered_list task_list list_item task_item blockquote : Kind
  doc : Kind
  other : ℕ → Kind

-- The attributes that the file reads; `none` is an absent key.
pub record Attrs : Type 0 where
  pub level : Option ℕ
  pub start : Option ℕ
  pub checked : Bool
  pub rest : ℕ

mutual
  pub data Node : Type 0 where
    text : Text → List ℕ → Node
    elem : Kind → Attrs → Nodes → Node

  pub data Nodes : Type 0 where
    nil : Nodes
    cons : Node → Nodes → Nodes

abbrev pub no_attrs : Attrs
no_attrs = record { level = none; start = none; checked = false; rest = 0 }

-- LEAF_TYPES
abbrev pub is_leaf : Kind → Bool
is_leaf hard_break = true
is_leaf horizontal_rule = true
is_leaf page_break = true
is_leaf image = true
is_leaf _ = false

-- TEXTBLOCK_TYPES
abbrev pub is_textblock_kind : Kind → Bool
is_textblock_kind paragraph = true
is_textblock_kind heading = true
is_textblock_kind code_block = true
is_textblock_kind _ = false

abbrev pub to_list : Nodes → List Node
to_list nil = []
to_list (cons n ns) = n ∷ to_list ns

abbrev pub of_list : List Node → Nodes
of_list [] = nil
of_list (n ∷ ns) = cons n (of_list ns)

-- `node.get("content", [])`
abbrev pub content : Node → List Node
content (text t marks) = []
content (elem k attrs c) = to_list c

unfoldable mutual
  pub node_size : Node → ℕ
  node_size (text t marks) = utf16_len t
  node_size (elem k attrs c) = elim (is_leaf k) [ true ↦ 1 | false ↦ nodes_size c + 2 ]

  pub nodes_size : Nodes → ℕ
  nodes_size nil = 0
  nodes_size (cons n ns) = node_size n + nodes_size ns

-- The sum over a list of children.
unfoldable pub list_size : List Node → ℕ
list_size [] = 0
list_size (n ∷ ns) = node_size n + list_size ns

unfoldable pub content_size : Node → ℕ
unfolding list_size
content_size n = list_size (content n)

abbrev pub is_text : Node → Bool
is_text (text t marks) = true
is_text (elem k attrs c) = false

unfoldable pub is_textblock : Node → Bool
is_textblock (text t marks) = false
is_textblock (elem k attrs c) = is_textblock_kind k || any is_text (to_list c)

pub list_size-to_list : (c : Nodes) → list_size (to_list c) ≡ nodes_size c
unfolding list_size nodes_size
list_size-to_list nil = refl
list_size-to_list (cons n ns) = ap (◌+◌ (node_size n)) (list_size-to_list ns)

pub to_list-of_list : (ns : List Node) → to_list (of_list ns) ≡ ns
to_list-of_list [] = refl
to_list-of_list (n ∷ ns) = ap (◌∷◌ n) (to_list-of_list ns)

pub of_list-to_list : (c : Nodes) → of_list (to_list c) ≡ c
of_list-to_list nil = refl
of_list-to_list (cons n ns) = ap (cons n) (of_list-to_list ns)

pub list_size-append : (xs ys : List Node) → list_size (xs ++ ys) ≡ list_size xs + list_size ys
unfolding list_size
list_size-append [] ys = omega arith
list_size-append (n ∷ xs) ys = omega (arith, list_size-append xs ys)
