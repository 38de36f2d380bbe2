-- ===== src/Workspace.antt =====
-- api/services/workspace_service.py, api/models/enums.py (`WorkspaceRole`), workspace.py,
-- workspace_member.py, and `WorkspaceAccess` of api/dependencies.py. An address stands as the
-- number of its normalised form; ids that `uuid4` gives are arguments.
pub mod Members
pub mod Access
pub mod Ownership
mod Tests
use synapse_canvas.Base.{
  ℕ, List, [], ◌∷◌, ◌++◌, Bool, true, false, not, ◌&&◌, Option, none, some, leb, ◌==◌,
  if◌then◌else◌, keep, is_some,
}
use synapse_canvas.Base.Dict.{Dict, lookup, insert, erase}
use synapse_canvas.ProseMirror.Utf16.{Text}

pub data Role : Type 0 where
  owner editor viewer : Role

-- `_ROLE_RANK`
unfoldable pub rank : Role → ℕ
rank viewer = 1
rank editor = 2
rank owner = 3

unfoldable pub satisfies : Role → Role → Bool
unfolding rank
satisfies role minimum = leb (rank minimum) (rank role)

pub record Account : Type 0 where
  pub email : ℕ
  pub is_email_verified : Bool

pub record Workspace : Type 0 where
  pub name : Text
  pub owner_id : ℕ

pub record Member : Type 0 where
  pub workspace_id : ℕ
  pub user_id : ℕ
  pub role : Role

pub record Tables : Type 0 where
  pub users : Dict Account
  pub workspaces : Dict Workspace
  pub members : List Member

pub data ErrorCode : Type 0 where
  workspace_not_found role_too_low : ErrorCode
  member_unknown_email member_unverified member_duplicate member_is_owner member_absent : ErrorCode

pub data Result {ℓ} (A : Type ℓ) : Type ℓ where
  ok : A → Result A
  err : ErrorCode → Result A

-- The role that a user has in a workspace, by its row.
unfoldable pub role_of : ℕ → ℕ → List Member → Option Role
role_of workspace user [] = none
role_of workspace user (m ∷ ms) =
    if m.workspace_id == workspace && m.user_id == user
    then some m.role
    else role_of workspace user ms

-- `get_user_by_email`
unfoldable pub user_by_email : ℕ → Dict Account → Option (ℕ × Account)
user_by_email email [] = none
user_by_email email (u ∷ us) = if u.1.email == email then some u else user_by_email email us

unfoldable pub create_workspace : Tables → ℕ → ℕ → Text → Tables
create_workspace t id owner_id name = record t {
  workspaces = insert id (record { name = name; owner_id = owner_id }) t.workspaces;
  members = t.members ++ (record { workspace_id = id; user_id = owner_id; role = owner } ∷ []);
}

abbrev pub paired : Option Workspace → Option Role → Option (Workspace × Role)
paired (some w) (some r) = some (w, r)
paired _ _ = none

-- An inner join: no such workspace and not a member are one and the same empty answer.
unfoldable pub get_workspace_with_role : Tables → ℕ → ℕ → Option (Workspace × Role)
unfolding role_of
get_workspace_with_role t workspace user =
    paired (lookup workspace t.workspaces) (role_of workspace user t.members)

-- `WorkspaceAccess(minimum)(workspace_id, …)`
unfoldable pub access : Tables → Role → ℕ → ℕ → Result (Workspace × Role)
unfolding get_workspace_with_role satisfies
access t minimum workspace user = elim (get_workspace_with_role t workspace user) [
  | none ↦ err workspace_not_found
  | some (w, role) ↦ if satisfies role minimum then ok (w, role) else err role_too_low
]

unfoldable pub update_workspace : Tables → ℕ → Workspace → Option Text → Tables
update_workspace t id w none = t
update_workspace t id w (some name) = record t {
  workspaces = insert id (record w { name = name }) t.workspaces;
}

-- The members go with the workspace: `ondelete="CASCADE"`.
unfoldable pub delete_workspace : Tables → ℕ → Tables
delete_workspace t id = record t {
  workspaces = erase id t.workspaces;
  members = keep (λ m. not (m.workspace_id == id)) t.members;
}

unfoldable pub list_members : Tables → ℕ → List Member
list_members t id = keep (λ m. m.workspace_id == id) t.members

unfoldable pub add_member : Tables → ℕ → ℕ → Role → Tables × Result Member
unfolding role_of user_by_email
add_member t workspace email role = elim (user_by_email email t.users) [
  | none ↦ (t, err member_unknown_email)
  | some (user, account) ↦
      if not account.is_email_verified
      then (t, err member_unverified)
      else if is_some (role_of workspace user t.members)
      then (t, err member_duplicate)
      else (
        record t {
          members =
              t.members ++ (record { workspace_id = workspace; user_id = user; role = role } ∷ []);
        },
        ok (record { workspace_id = workspace; user_id = user; role = role }),
      )
]

abbrev pub is_membership : ℕ → ℕ → Member → Bool
is_membership workspace user m = m.workspace_id == workspace && m.user_id == user

unfoldable pub remove_member : Tables → ℕ → Workspace → ℕ → Tables × Result (Unit {0})
unfolding role_of
remove_member t workspace w user =
    if user == w.owner_id
    then (t, err member_is_owner)
    else if is_some (role_of workspace user t.members)
    then (record t { members = keep (λ m. not (is_membership workspace user m)) t.members }, ok tt)
    else (t, err member_absent)
