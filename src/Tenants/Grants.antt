-- ===== src/Tenants/Grants.antt =====
-- features/tenants/invite-routes.ts: a user is given access to a tenant, and is invited if there is
-- none with the email.
use dep_customs.Prelude.{
  String, Bool, true, false, not, ◌&&◌, ◌||◌, List, [], ◌∷◌, Option, none, some, str_eq, concat,
  find, if◌then◌else◌, is_some,
}
use dep_customs.Access.{metadata, can_invite_tenant_role, can_invite_without_project_scope}
use dep_customs.Access.Projects.{
  ProjectMemberRow, ProjectRow, ErrorResponse, HttpResult, ok_result, error_result,
}
use dep_customs.Tenants.Guards.{
  ◌>>=◌, Caller, error_of, require, require_tenant_param_access, require_tenant_capability,
}
use dep_customs.Tenants.Users.{
  find_user_by_email, AuthAdminUser, AuthFailure, misconfigured, other, upstream, Reply, replied,
  failed,
}
use dep_customs.Tenants.Rows.{
  MembershipRow, TenantTables, Answer, answered, refused, rejected, crashed, Handled, untouched,
  is_membership, scoped_project_id, insert_project_member, record_member,
}
use dep_customs.Tenants.Members.{role_test, related, is_optional_uuid, require_scoped_access}

unfoldable pub is_assignable_tenant_role : String → Bool
is_assignable_tenant_role = role_test (λ r. (metadata r).invite_assignable)

pub record InviteMemberBody : Type 0 where
  pub email : String
  pub role : String
  pub project_id : Option String

unfoldable pub invite_member_schema : (is_uuid is_email : String → Bool) → InviteMemberBody → Bool
invite_member_schema is_uuid is_email body =
    is_email body.email
    && is_assignable_tenant_role body.role
    && is_optional_uuid is_uuid body.project_id

pub data Outcome : Type 0 where
  project_access_added already_had_project_access already_in_tenant : Outcome
  tenant_and_project_access_added tenant_access_added invite_sent : Outcome

pub record AccessGrant : Type 0 where
  pub outcome : Outcome
  pub email : String
  pub role : String
  pub role_changed : Bool

unfoldable pub grant_guard :
    (is_uuid : String → Bool)
    → List ProjectRow
    → List ProjectMemberRow
    → Caller
    → (tenant_id role : String) → (scoped : Option String) → HttpResult String
grant_guard is_uuid projects members caller tenant_id role scoped = do
  tenant ← require_tenant_param_access is_uuid caller tenant_id
  _ ←
      require_tenant_capability caller "members.invite"
        "You do not have access to manage tenant access"
  _ ← require (related can_invite_tenant_role caller.role role) (
      error_of 403 "FORBIDDEN"
        (concat ("You do not have access to grant users the role \"" ∷ role ∷ "\"" ∷ [])))
  _ ←
      require (role_test can_invite_without_project_scope caller.role || is_some scoped)
        (error_of 400 "BAD_REQUEST" "You must specify a project_id for your current access level")
  _ ← require_scoped_access projects members caller scoped
  ok_result tenant

abbrev lookup_failure : AuthFailure → ErrorResponse
lookup_failure misconfigured = error_of 500 "SERVER_MISCONFIGURED" "Auth service is not configured"
lookup_failure other = error_of 500 "LOOKUP_FAILED" "Failed to resolve user by email"
lookup_failure (upstream status) = error_of 500 "LOOKUP_FAILED" "Failed to resolve user by email"

abbrev invite_failure : AuthFailure → ErrorResponse
invite_failure misconfigured =
    error_of 500 "SERVER_MISCONFIGURED" "Invite service is not configured"
invite_failure other = error_of 500 "INVITE_FAILED" "Failed to send invite email"
invite_failure (upstream status) = error_of 500 "INVITE_FAILED" "Failed to send invite email"

abbrev grant : Outcome → (email role : String) → Answer AccessGrant
grant outcome email role =
    answered (record { outcome = outcome; email = email; role = role; role_changed = false })

-- `onConflictDoNothing`: the rows, and whether one was inserted
unfoldable pub add_project_member :
    ProjectMemberRow → List ProjectMemberRow → List ProjectMemberRow × Bool
add_project_member row rows = elim (insert_project_member row rows) [
  | none ↦ (rows, false)
  | some rows' ↦ (rows', true)
]

-- the project rows and whether one was added, if the role is scoped to a project
unfoldable pub project_added :
    (user_id tenant_id : String)
    → Option String
    → List ProjectMemberRow
    → List ProjectMemberRow × Bool
project_added user_id tenant_id none rows = (rows, false)
project_added user_id tenant_id (some project_id) rows =
    add_project_member
      (record { project_id = project_id; tenant_id = tenant_id; user_id = user_id }) rows

-- the user is a member of the tenant
unfoldable pub grant_to_member :
    (tenant_id : String)
    → (scoped : Option String) → InviteMemberBody
    → (user_id : String) → MembershipRow
    → TenantTables
    → Handled AccessGrant
grant_to_member tenant_id scoped body user_id existing tables =
    let (rows, added) = project_added user_id tenant_id scoped tables.project_members in
    untouched (record tables { project_members = rows })
      (grant
        (if is_some body.project_id
          then (if added then project_access_added else already_had_project_access)
          else already_in_tenant)
        body.email existing.role)

-- The user is known and no member of the tenant. A transaction that fails is not caught.
unfoldable pub grant_to_user :
    (commits : Bool)
    → (tenant_id : String) → (scoped : Option String) → InviteMemberBody
    → (user_id : String) → TenantTables
    → Handled AccessGrant
grant_to_user commits tenant_id scoped body user_id tables =
    elim (record_member commits user_id tenant_id body.role scoped tables) [
      | none ↦ untouched tables crashed
      | some next ↦ untouched next (
          grant (if is_some scoped then tenant_and_project_access_added else tenant_access_added)
            body.email body.role)
    ]

abbrev pub is_confirmed : AuthAdminUser → Bool
is_confirmed user = elim user.email_confirmed_at [ none ↦ false | some at ↦ not (str_eq at "") ]

unfoldable pub grant_to_invited :
    (commits : Bool)
    → (tenant_id : String) → (scoped : Option String) → InviteMemberBody
    → Reply AuthAdminUser
    → TenantTables
    → Handled AccessGrant
grant_to_invited commits tenant_id scoped body (failed e) tables =
    untouched tables (refused (invite_failure e))
grant_to_invited commits tenant_id scoped body (replied user) tables =
    elim (record_member commits user.id tenant_id body.role scoped tables) [
      | none ↦ record {
        tables = tables;
        delete_requests = if is_confirmed user then [] else user.id ∷ [];
        answer =
            refused (error_of 500 "INVITE_FAILED" "Failed to record membership for invited user");
      }
      | some next ↦ untouched next (grant invite_sent body.email body.role)
    ]

unfoldable pub granted :
    (commits : Bool)
    → (tenant_id : String) → (scoped : Option String) → InviteMemberBody
    → (find_user : Reply (Option AuthAdminUser)) → (invite_user : Reply AuthAdminUser)
    → TenantTables
    → Handled AccessGrant
granted commits tenant_id scoped body (failed e) invite_user tables =
    untouched tables (refused (lookup_failure e))
granted commits tenant_id scoped body (replied none) invite_user tables =
    grant_to_invited commits tenant_id scoped body invite_user tables
granted commits tenant_id scoped body (replied (some user)) invite_user tables =
    elim (find (is_membership user.id tenant_id) tables.memberships) [
      | some existing ↦ grant_to_member tenant_id scoped body user.id existing tables
      | none ↦ grant_to_user commits tenant_id scoped body user.id tables
    ]

unfoldable pub grant_tenant_access :
    (is_uuid is_email : String → Bool)
    → (to_lower_case : String → String) → List ProjectRow
    → Caller
    → (tenant_id : String) → InviteMemberBody
    → (users : Reply (List AuthAdminUser)) → (invite_user : Reply AuthAdminUser) → (commits : Bool)
    → TenantTables
    → Handled AccessGrant
grant_tenant_access is_uuid is_email to_lower_case projects caller tenant_id body users invite_user
      commits tables =
    let scoped = scoped_project_id body.role body.project_id in
    if not (invite_member_schema is_uuid is_email body)
    then untouched tables rejected
    else elim (grant_guard is_uuid projects tables.project_members caller tenant_id body.role
        scoped) [
          | error_result e ↦ untouched tables (refused e)
          | ok_result tenant ↦
              granted commits tenant scoped body (find_user_by_email to_lower_case body.email users)
                invite_user tables
        ]
