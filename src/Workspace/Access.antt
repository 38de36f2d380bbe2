-- ===== src/Workspace/Access.antt =====
-- `WorkspaceAccess` of api/dependencies.py: who may act on a workspace, and who no longer.
use synapse_canvas.Base.{
  ℕ, ◌≡◌, refl, sym, ap, ◌∙◌, ◌≢◌, ◌⊎◌, inl, inr, arith, true, false, none, some, ◌==◌, Bool-cases,
  Option-cases,
}
use synapse_canvas.Base.Dict.{lookup}
use synapse_canvas.Workspace.Ownership.{expel, remove_member-Ends}
use synapse_canvas.Workspace.{
  Role, satisfies, Workspace, Tables, ErrorCode, Result, ok, err, workspace_not_found, role_too_low,
  role_of, paired, get_workspace_with_role, access, remove_member,
}
use synapse_canvas.Workspace.Members.{role_of-without_member}

-- The three ways that a check of access can end, each with the rows that lead to it.
abbrev pub Decides : Tables → Role → ℕ → ℕ → Type 0
Decides t minimum id user =
    ((paired (lookup id t.workspaces) (role_of id user t.members) ≡ none)
      × (access t minimum id user ≡ err workspace_not_found))
    ⊎ ((w : Workspace) × (r : Role) × (lookup id t.workspaces ≡ some w)
        × (role_of id user t.members ≡ some r)
        × (((satisfies r minimum ≡ true) × (access t minimum id user ≡ ok (w, r)))
            ⊎ ((satisfies r minimum ≡ false) × (access t minimum id user ≡ err role_too_low))))

access-Decides : (t : Tables) (minimum : Role) (id user : ℕ) → Decides t minimum id user
unfolding access get_workspace_with_role
access-Decides t minimum id user = elim (Option-cases (lookup id t.workspaces)) [
  | inl e ↦ inl (rw e refl, rw (e, access) refl)
  | inr (w, e) ↦ elim (Option-cases (role_of id user t.members)) [
    | inl n ↦ inl (rw e (rw n refl), rw (e, access) (rw (n, access) refl))
    | inr (r, s) ↦ elim (Bool-cases (satisfies r minimum)) [
      | inl y ↦ inr (w, r, e, s, inl (y, rw (e, access) (rw (s, access) (rw y refl))))
      | inr n ↦ inr (w, r, e, s, inr (n, rw (e, access) (rw (s, access) (rw n refl))))
    ]
  ]
]

err_not_ok : {A : Type 0} (e : ErrorCode) (a : A) → ◌≢◌ {A = Result A} (err e) (ok a)
err_not_ok e a h = cc

role_of-expel : (t : Tables) (id user : ℕ) → role_of id user (expel t id user).members ≡ none
role_of-expel t id user = ground (arith, role_of-without_member id user id user t.members)

-- After a removal that succeeds, the removed user has no access to the workspace at any minimum
-- role, and gets the answer of a workspace that does not exist; every other user's role in it is
-- as it was.
pub remove_member-access :
    (t : Tables) (id : ℕ) (w : Workspace) (user other : ℕ) (minimum : Role)
    → let out = remove_member t id w user in
      out.1 ≡ ok tt
      → (access out.0 minimum id user ≡ err workspace_not_found)
        × ((other == user) ≡ false → role_of id other out.0.members ≡ role_of id other t.members)
remove_member-access t id w user other minimum done = elim (remove_member-Ends t id w user) [
  | inl (e, out) ↦ absurd (err_not_ok e tt (sym (ap (λ o. o.1) out) ∙ done))
  | inr (not_owner, out) ↦ rw out (
    elim (access-Decides (expel t id user) minimum id user) [
      | inl (none_there, refused) ↦ refused
      | inr (w', r, found, has, more) ↦ cc (role_of-expel t id user)
    ],
    λ apart. rw (role_of-without_member id other id user t.members) (ground arith),
  )
]
