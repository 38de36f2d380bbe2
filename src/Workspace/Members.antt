-- ===== src/Workspace/Members.antt =====
-- The role that the member table gives, under each change of the table.
use synapse_canvas.Base.{
  ℕ, ◌≡◌, List, [], ◌∷◌, ◌++◌, arith, not, ◌&&◌, Option, none, some, ◌==◌, if◌then◌else◌, keep,
}
use synapse_canvas.Workspace.{Role, Member, role_of, is_membership}

abbrev pub or_else : Option Role → Option Role → Option Role
or_else none b = b
or_else (some a) b = some a

pub role_of-snoc :
    (w u : ℕ) (ms : List Member) (m : Member)
    → role_of w u (ms ++ (m ∷ []))
      ≡ or_else (role_of w u ms) (if is_membership w u m then some m.role else none)
unfolding role_of
role_of-snoc w u [] m = ground arith
role_of-snoc w u (x ∷ ms) m = ground (arith, role_of-snoc w u ms m)

pub role_of-without_workspace :
    (w u id : ℕ) (ms : List Member)
    → role_of w u (keep (λ m. not (m.workspace_id == id)) ms)
      ≡ (if w == id then none else role_of w u ms)
unfolding role_of
role_of-without_workspace w u id [] = ground arith
role_of-without_workspace w u id (x ∷ ms) = ground (arith, role_of-without_workspace w u id ms)

pub role_of-without_member :
    (w u workspace user : ℕ) (ms : List Member)
    → role_of w u (keep (λ m. not (is_membership workspace user m)) ms)
      ≡ (if w == workspace && u == user then none else role_of w u ms)
unfolding role_of
role_of-without_member w u workspace user [] = ground arith
role_of-without_member w u workspace user (x ∷ ms) =
    ground (arith, role_of-without_member w u workspace user ms)
