-- ===== src/Workspace/Tests.antt =====
-- Workspaces run on two members.
use synapse_canvas.Base.{◌≡◌, refl, false, true, [], ◌∷◌, ◌==◌}
use synapse_canvas.Workspace.{
  Tables, Workspace, owner, editor, ok, err, workspace_not_found, role_too_low, role_of, access,
  create_workspace, add_member, remove_member, user_by_email, satisfies, rank,
  get_workspace_with_role,
}
use synapse_canvas.Workspace.Access.{remove_member-access}
use synapse_canvas.Workspace.Ownership.{
  WellFormed, empty-WellFormed, Reach, begins, continues, creates, adds, Reach-owner_access,
}

abbrev people : Tables
people = record {
  users = (7, record { email = 70; is_email_verified = true }) ∷ [];
  workspaces = [];
  members = [];
}

abbrev room : Workspace
room = record { name = []; owner_id = 3 }

abbrev opened : Tables
opened = create_workspace people 1 3 []

abbrev joined : Tables
joined = (add_member opened 1 70 editor).0

people-WellFormed : WellFormed people
people-WellFormed = empty-WellFormed people.users

joined-Reach : Reach people joined
unfolding create_workspace
joined-Reach =
    continues (continues begins (creates people 1 3 [] refl)) (adds opened 1 room 70 editor refl)

Reach-owner_access_example : WellFormed joined × (access joined owner 1 3 ≡ ok (room, owner))
unfolding create_workspace add_member user_by_email role_of
Reach-owner_access_example = Reach-owner_access 1 room owner people-WellFormed joined-Reach refl

editor-refused : access joined owner 1 7 ≡ err role_too_low
unfolding access get_workspace_with_role satisfies rank create_workspace add_member user_by_email
    role_of
editor-refused = refl

remove_member-access_example :
    (access (remove_member joined 1 room 7).0 editor 1 7 ≡ err workspace_not_found)
    × ((3 == 7) ≡ false
        → role_of 1 3 (remove_member joined 1 room 7).0.members ≡ role_of 1 3 joined.members)
unfolding create_workspace add_member user_by_email role_of remove_member
remove_member-access_example = remove_member-access joined 1 room 7 3 editor refl
