-- ===== src/Tenants/Tests.antt =====
-- A tenant with an owner, an administrator and a guest.
use dep_customs.Prelude.{
  String, ◌≡◌, ◌⊎◌, refl, Bool, true, false, List, [], ◌∷◌, none, some, inl, In, arith,
}
use dep_customs.Access.Projects.{ProjectMemberRow, ProjectRow, ErrorResponse}
use dep_customs.Tenants.Guards.{Caller}
use dep_customs.Tenants.Users.{
  AuthAdminUser, AuthFailure, other, Reply, replied, failed, request_paginated,
}
use dep_customs.Tenants.Users.Pages.{served, request_paginated-all}
use dep_customs.Tenants.Rows.{MembershipRow, TenantTables, answered, refused}
use dep_customs.Tenants.Members.{CreateMemberBody, CreatedMember, created_member}
use dep_customs.Tenants.Grants.{InviteMemberBody, granted}
use dep_customs.Tenants.Passwords.{reset_password}
use dep_customs.Tenants.Passwords.Reset.{IsAllowed, reset_password-IsAllowed}
use dep_customs.Tenants.Requests.{
  Change, create_request, grant_request, role_request, Request, handle_request, handle_requests,
}
use dep_customs.Tenants.Escalation.{IsGiven, IsShared, handle_request-IsGiven}
use dep_customs.Tenants.Cleanup.{HasAccess, created_member-IsSettled}
use dep_customs.Tenants.Granting.{IsDone, granted-IsDone}

abbrev any_text : String → Bool
any_text _ = true

abbrev same_text : String → String
same_text s = s

abbrev row_of : (user_id role : String) → MembershipRow
row_of user_id role = record { user_id = user_id; tenant_id = "t"; role = role }

abbrev tables : TenantTables
tables = record {
  memberships = row_of "u1" "owner" ∷ row_of "u2" "admin" ∷ row_of "u3" "guest" ∷ [];
  project_members = record { project_id = "p"; tenant_id = "t"; user_id = "u3" } ∷ [];
}

abbrev projects : List ProjectRow
projects = record { id = "p"; tenant_id = "t"; name = "web"; is_current = true } ∷ []

abbrev caller_of : (user_id role : String) → Caller
caller_of user_id role = record {
  tenant_id = "t";
  tenant_kind = none;
  user_id = user_id;
  role = role;
}

abbrev user_of : String → AuthAdminUser
user_of id = record { id = id; email = none; email_confirmed_at = none; provider = some "email" }

abbrev create_body : CreateMemberBody
create_body = record {
  email = "a@b";
  password = "long enough";
  role = "member";
  project_id = some "p";
}

abbrev invite_body : InviteMemberBody
invite_body = record { email = "a@b"; role = "guest"; project_id = some "p" }

abbrev request_of : (user_id role : String) → Change → Request
request_of user_id role change = record {
  caller = caller_of user_id role;
  projects = projects;
  tenant_id = "t";
  change = change;
}

-- the owner creates a user, the administrator invites one and promotes the guest
abbrev requests : List Request
requests =
    request_of "u1" "owner" (create_request create_body (replied (user_of "u4")) true)
    ∷ request_of "u2" "admin" (grant_request invite_body (replied []) (replied (user_of "u5")) true)
    ∷ request_of "u2" "admin" (role_request "u3" "member")
    ∷ request_of "u2" "admin" (role_request "u1" "member")
    ∷ []

after_requests : handle_requests any_text any_text same_text requests tables ≡ record {
  memberships =
      row_of "u1" "owner"
      ∷ row_of "u2" "admin"
      ∷ row_of "u3" "member"
      ∷ row_of "u4" "member"
      ∷ row_of "u5" "guest"
      ∷ [];
  project_members =
      record { project_id = "p"; tenant_id = "t"; user_id = "u3" }
      ∷ record { project_id = "p"; tenant_id = "t"; user_id = "u4" }
      ∷ record { project_id = "p"; tenant_id = "t"; user_id = "u5" }
      ∷ [];
}
unfolding dep_customs.Tenants.Users.find_user_by_email dep_customs.Tenants.Requests.handle_request
    dep_customs.Tenants.Requests.handle_requests dep_customs.Tenants.Requests.handle_change
    dep_customs.Tenants.Members.patch_member_role dep_customs.Tenants.Members.member_guard
    dep_customs.Tenants.Members.is_manageable_tenant_role dep_customs.Access.tenant_role
    dep_customs.Tenants.Guards.require_tenant_param_access
    dep_customs.Tenants.Guards.validate_uuid_param
    dep_customs.Tenants.Guards.require_tenant_capability
    dep_customs.Tenants.Guards.has_tenant_capability dep_customs.Access.can_perform
    dep_customs.Access.role_capabilities dep_customs.Access.allowed_in
    dep_customs.Tenants.Members.changed_role dep_customs.Tenants.Grants.grant_tenant_access
    dep_customs.Tenants.Grants.invite_member_schema dep_customs.Access.Projects.check_project_access
    dep_customs.Access.Projects.is_current_project dep_customs.Access.Projects.is_member_row
    dep_customs.Access.Projects.resolve_project_with_access
    dep_customs.Access.can_direct_create_tenant_role dep_customs.Access.can_invite_tenant_role
    dep_customs.Access.can_invite_without_project_scope
    dep_customs.Access.get_direct_creatable_tenant_roles
    dep_customs.Access.get_invitable_tenant_roles dep_customs.Access.has_implicit_project_access
    dep_customs.Tenants.Grants.grant_guard dep_customs.Tenants.Grants.grant_to_invited
    dep_customs.Tenants.Grants.granted dep_customs.Tenants.Grants.is_assignable_tenant_role
    dep_customs.Tenants.Guards.require_resolved_project_access
    dep_customs.Tenants.Members.create_member dep_customs.Tenants.Members.create_member_guard
    dep_customs.Tenants.Members.create_member_schema dep_customs.Tenants.Members.created_member
    dep_customs.Tenants.Members.is_direct_creatable_tenant_role
    dep_customs.Tenants.Members.require_scoped_access dep_customs.Tenants.Rows.insert_membership
    dep_customs.Tenants.Rows.insert_project_member dep_customs.Tenants.Rows.is_membership
    dep_customs.Tenants.Rows.record_member dep_customs.Tenants.Rows.scoped_project_id
after_requests = refl

abbrev creation : Request
creation = request_of "u1" "owner" (create_request create_body (replied (user_of "u4")) true)

handle_request-IsGiven_example :
    ((m : MembershipRow)
      → In m (handle_request any_text any_text same_text creation tables).memberships
      → IsGiven (caller_of "u1" "owner") tables m)
    × ((row : ProjectMemberRow)
        → In row (handle_request any_text any_text same_text creation tables).project_members
        → IsShared projects (caller_of "u1" "owner") tables row)
handle_request-IsGiven_example = handle_request-IsGiven any_text any_text same_text creation tables

-- the database fails
created_member-IsSettled_example :
    let h = created_member false "t" (some "p") create_body (replied (user_of "u4")) tables in
    ((a : CreatedMember) × (h.answer ≡ answered a)
      × (h.delete_requests ≡ [])
      × HasAccess "u4" "t" (some "p") h.tables)
    ⊎ ((e : ErrorResponse) × (h.answer ≡ refused e)
        × (h.delete_requests ≡ "u4" ∷ [])
        × (h.tables ≡ tables))
created_member-IsSettled_example =
    created_member-IsSettled false "t" (some "p") create_body (user_of "u4") tables

granted-IsDone_example :
    IsDone (user_of "u3") "t" (some "q") tables (
      granted true "t" (some "q") invite_body (replied (some (user_of "u3"))) (failed other) tables)
granted-IsDone_example =
    granted-IsDone "t" invite_body (some "q") true (replied (some (user_of "u3"))) (failed other)
      (user_of "u3") tables (inl refl)

abbrev all_users : List AuthAdminUser
all_users = user_of "u1" ∷ user_of "u2" ∷ user_of "u3" ∷ []

request_paginated-all_example :
    request_paginated (served none 2 all_users) 2 4 ≡ some (replied all_users)
request_paginated-all_example =
    request_paginated-all none 2 4 all_users (inl refl) (omega arith) (omega arith)

abbrev new_password : String
new_password = "new password"

reset_password-IsAllowed_example :
    (new_password ≡ new_password)
    × IsAllowed
        (caller_of "u1" "owner")
        (λ id. replied (user_of id))
        tables.memberships
        "u3"
        new_password
unfolding reset_password dep_customs.Tenants.Members.member_guard
    dep_customs.Tenants.Guards.require_tenant_param_access
    dep_customs.Tenants.Guards.validate_uuid_param
    dep_customs.Tenants.Guards.require_tenant_capability
    dep_customs.Tenants.Guards.has_tenant_capability dep_customs.Access.tenant_role
    dep_customs.Access.can_perform dep_customs.Access.role_capabilities
    dep_customs.Access.allowed_in dep_customs.Tenants.Rows.is_membership
    dep_customs.Tenants.Passwords.reset_of dep_customs.Tenants.Users.get_user
reset_password-IsAllowed_example =
    reset_password-IsAllowed any_text (caller_of "u1" "owner") "t" "u3" new_password
      (λ id. replied (user_of id)) (replied tt) tables.memberships ("u3", new_password) (inl refl)
