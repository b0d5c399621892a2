-- ===== src/Access/Tests.antt =====
-- Requests by a member and an admin of one tenant.
use dep_customs.Prelude.{◌≡◌, ◌⊎◌, refl, true, false, [], ◌∷◌, In}
use dep_customs.Access.{
  Role, owner, admin, demo, member, guest, CapabilityContext, no_context, can_perform,
  can_invite_tenant_role, can_direct_create_tenant_role, same_role, has_implicit_project_access,
}
use dep_customs.Access.Projects.{
  ProjectMemberRow, ProjectRow, ok_result, IsMember, resolve_project_with_access,
  resolve_project_with_access_granted,
}

abbrev website : ProjectRow
website = record { id = "p1"; tenant_id = "t1"; name = "website"; is_current = true }

abbrev membership : ProjectMemberRow
membership = record { project_id = "p1"; tenant_id = "t1"; user_id = "u1" }

resolve_project_with_access_granted_example :
    In website (website ∷ [])
    × (website.id ≡ "p1")
    × (website.tenant_id ≡ "t1")
    × (website.is_current ≡ true)
    × ((has_implicit_project_access "guest" ≡ true) ⊎ IsMember (membership ∷ []) "u1" "p1" "t1")
unfolding resolve_project_with_access dep_customs.Access.Projects.is_current_project
    dep_customs.Access.Projects.check_project_access has_implicit_project_access
    dep_customs.Access.tenant_role dep_customs.Access.Projects.is_member_row
resolve_project_with_access_granted_example =
    resolve_project_with_access_granted (website ∷ []) (membership ∷ []) "p1" "t1" "u1" "guest"
      false website refl
