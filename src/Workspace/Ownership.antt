-- ===== src/Workspace/Ownership.antt =====
-- api/services/workspace_service.py and `WorkspaceAccess`: the access of an owner.
use synapse_canvas.Base.{
  ℕ, ◌≡◌, refl, ap, ◌⊎◌, inl, inr, arith, not, true, false, Option, none, some, ◌==◌, is_some,
  Bool-cases, Option-cases, keep, ◌++◌, ◌∷◌, [],
}
use synapse_canvas.Base.Dict.{Dict, lookup, lookup-insert, lookup-erase}
use synapse_canvas.ProseMirror.Utf16.{Text}
use synapse_canvas.Workspace.{
  Role, owner, editor, viewer, rank, satisfies, Workspace, Member, Account, Tables, ErrorCode, ok,
  err, role_of, user_by_email, create_workspace, get_workspace_with_role, access, update_workspace,
  delete_workspace, add_member, is_membership, remove_member, member_unknown_email,
  member_unverified, member_duplicate, member_is_owner, member_absent,
}
use synapse_canvas.Workspace.Members.{
  role_of-snoc, role_of-without_workspace, role_of-without_member,
}

abbrev pub new_member : ℕ → ℕ → Role → Member
new_member workspace user role = record { workspace_id = workspace; user_id = user; role = role }

abbrev pub enrol : Tables → Member → Tables
enrol t m = record t { members = t.members ++ (m ∷ []) }

-- Adding a member changes nothing, or gives a role to a user who had none there.
pub add_member-Ends :
    (t : Tables) (workspace email : ℕ) (role : Role)
    → ((e : ErrorCode) × (add_member t workspace email role ≡ (t, err e)))
      ⊎ ((user : ℕ) × (role_of workspace user t.members ≡ none)
          × (add_member t workspace email role
              ≡ (enrol t (new_member workspace user role), ok (new_member workspace user role))))
unfolding add_member
add_member-Ends t workspace email role = elim (Option-cases (user_by_email email t.users)) [
  | inl e ↦ inl (member_unknown_email, rw (e, add_member) refl)
  | inr ((user, account), e) ↦ elim (Bool-cases (account.is_email_verified)) [
    | inl v ↦ elim (Option-cases (role_of workspace user t.members)) [
      | inl n ↦ inr (user, n, rw (e, add_member) (rw v (rw n refl)))
      | inr (r, s) ↦ inl (member_duplicate, rw (e, add_member) (rw v (rw s refl)))
    ]
    | inr v ↦ inl (member_unverified, rw (e, add_member) (rw v refl))
  ]
]

abbrev pub expel : Tables → ℕ → ℕ → Tables
expel t workspace user = record t {
  members = keep (λ m. not (is_membership workspace user m)) t.members;
}

-- Removing a member changes nothing, or takes the role of a user who is not the owner.
pub remove_member-Ends :
    (t : Tables) (workspace : ℕ) (w : Workspace) (user : ℕ)
    → ((e : ErrorCode) × (remove_member t workspace w user ≡ (t, err e)))
      ⊎ (((user == w.owner_id) ≡ false)
          × (remove_member t workspace w user ≡ (expel t workspace user, ok tt)))
unfolding remove_member
remove_member-Ends t workspace w user = elim (Bool-cases (user == w.owner_id)) [
  | inl o ↦ inl (member_is_owner, rw (o, remove_member) refl)
  | inr o ↦ elim (Bool-cases (is_some (role_of workspace user t.members))) [
    | inl s ↦ inr (o, rw (o, remove_member) (rw s refl))
    | inr s ↦ inl (member_absent, rw (o, remove_member) (rw s refl))
  ]
]

-- The owner of each workspace has its row as OWNER, and no row is left without a workspace.
pub WellFormed : Tables → Type 0
WellFormed t =
    ((id : ℕ) (w : Workspace)
      → lookup id t.workspaces ≡ some w
      → role_of id w.owner_id t.members ≡ some owner)
    × ((id user : ℕ) → lookup id t.workspaces ≡ none → role_of id user t.members ≡ none)

pub empty-WellFormed :
    (users : Dict Account) → WellFormed (record { users = users; workspaces = []; members = [] })
unfolding WellFormed role_of
empty-WellFormed users = (λ id w at. cc, λ id user at. refl)

-- A request to the workspace routes. What they act on is the stored row, by `WorkspaceAccess`.
pub data Event : Tables → Tables → Type 0 where
  creates :
      (t : Tables) (id owner_id : ℕ) (name : Text)
      → lookup id t.workspaces ≡ none
      → Event t (create_workspace t id owner_id name)
  updates :
      (t : Tables) (id : ℕ) (w : Workspace) (name : Option Text)
      → lookup id t.workspaces ≡ some w
      → Event t (update_workspace t id w name)
  deletes : (t : Tables) (id : ℕ) → Event t (delete_workspace t id)
  adds :
      (t : Tables) (id : ℕ) (w : Workspace) (email : ℕ) (role : Role)
      → lookup id t.workspaces ≡ some w
      → Event t (add_member t id email role).0
  removes :
      (t : Tables) (id : ℕ) (w : Workspace) (user : ℕ)
      → lookup id t.workspaces ≡ some w
      → Event t (remove_member t id w user).0

pub data Reach (start : Tables) : Tables → Type 0 where
  begins : Reach start start
  continues : {t t' : Tables} → Reach start t → Event t t' → Reach start t'

create_workspace-WellFormed :
    (t : Tables) (id owner_id : ℕ) (name : Text)
    → lookup id t.workspaces ≡ none
    → WellFormed t
    → WellFormed (create_workspace t id owner_id name)
unfolding WellFormed create_workspace
create_workspace-WellFormed t id owner_id name free (owned, rest) = (
  λ k w at. ground (
    arith,
    role_of-snoc k w.owner_id t.members (new_member id owner_id owner),
    lookup-insert k id (record { name = name; owner_id = owner_id }) t.workspaces,
    owned k w,
    rest id w.owner_id free,
    ap (λ i. role_of i w.owner_id t.members) {x = k} {y = id},
  ),
  λ k u at. ground (
    arith,
    role_of-snoc k u t.members (new_member id owner_id owner),
    lookup-insert k id (record { name = name; owner_id = owner_id }) t.workspaces,
    rest k u,
  ),
)

enrol-WellFormed :
    (t : Tables) (id : ℕ) (w : Workspace) (user : ℕ) (role : Role)
    → lookup id t.workspaces ≡ some w
    → WellFormed t
    → WellFormed (enrol t (new_member id user role))
unfolding WellFormed
enrol-WellFormed t id w user role at (owned, rest) = (
  λ k v found.
      rw (role_of-snoc k v.owner_id t.members (new_member id user role))
        (rw (owned k v found) refl),
  λ k u gone. ground (
    arith,
    role_of-snoc k u t.members (new_member id user role),
    rest k u gone,
    ap (λ i. lookup i t.workspaces) {x = k} {y = id},
  ),
)

expel-WellFormed :
    (t : Tables) (id : ℕ) (w : Workspace) (user : ℕ)
    → lookup id t.workspaces ≡ some w
    → (user == w.owner_id) ≡ false
    → WellFormed t
    → WellFormed (expel t id user)
unfolding WellFormed
expel-WellFormed t id w user at other (owned, rest) = (
  λ k v found. ground (
    arith,
    role_of-without_member k v.owner_id id user t.members,
    owned k v found,
    ap (λ i. lookup i t.workspaces) {x = k} {y = id},
  ),
  λ k u gone. ground (arith, role_of-without_member k u id user t.members, rest k u gone),
)

Event-WellFormed : {t t' : Tables} → Event t t' → WellFormed t → WellFormed t'
unfolding update_workspace delete_workspace WellFormed
Event-WellFormed (creates t id owner_id name free) wf =
    create_workspace-WellFormed t id owner_id name free wf
Event-WellFormed (updates t id w none at) wf = wf
Event-WellFormed (updates t id w (some name) at) (owned, rest) =
    let row = record w { name = name } in
    (
      λ k v found. ground (arith, lookup-insert k id row t.workspaces, owned k v, owned id w at),
      λ k u gone. ground (arith, lookup-insert k id row t.workspaces, rest k u),
    )
Event-WellFormed (deletes t id) (owned, rest) = (
  λ k w found. ground (
    arith,
    lookup-erase k id t.workspaces,
    role_of-without_workspace k w.owner_id id t.members,
    owned k w,
  ),
  λ k u gone.
      ground (
        arith,
        lookup-erase k id t.workspaces,
        role_of-without_workspace k u id t.members,
        rest k u,
      ),
)
Event-WellFormed (adds t id w email role at) wf = elim (add_member-Ends t id email role) [
  | inl (e, out) ↦ rw out wf
  | inr (user, free, out) ↦ rw out (enrol-WellFormed t id w user role at wf)
]
Event-WellFormed (removes t id w user at) wf = elim (remove_member-Ends t id w user) [
  | inl (e, out) ↦ rw out wf
  | inr (other, out) ↦ rw out (expel-WellFormed t id w user at other wf)
]

satisfies-owner : (minimum : Role) → satisfies owner minimum ≡ true
unfolding satisfies rank
satisfies-owner owner = refl
satisfies-owner editor = refl
satisfies-owner viewer = refl

Reach-WellFormed : {start t : Tables} → WellFormed start → Reach start t → WellFormed t
Reach-WellFormed wf begins = wf
Reach-WellFormed wf (continues r e) = Event-WellFormed e (Reach-WellFormed wf r)

-- From a well-formed start, after any sequence of workspace creations under fresh ids, renames,
-- deletions, member additions and removals, the owner of every stored workspace still passes
-- `WorkspaceAccess` with every minimum role, as OWNER.
pub Reach-owner_access :
    {start t : Tables} (id : ℕ) (w : Workspace) (minimum : Role)
    → WellFormed start
    → Reach start t
    → lookup id t.workspaces ≡ some w
    → WellFormed t × (access t minimum id w.owner_id ≡ ok (w, owner))
unfolding WellFormed access get_workspace_with_role
Reach-owner_access {start} {t} id w minimum wf r at =
    let now = Reach-WellFormed wf r in
    (now, rw (at, access) (rw (now.0 id w at, access) (rw (satisfies-owner minimum) refl)))
