-- ===== src/Tenants/Members.antt =====
-- features/tenants/member-routes.ts: members that are made with a password, and changes of roles.
-- `is_uuid` and `is_email` are the schemas' tests of texts.
use dep_customs.Prelude.{
  String, Bool, true, false, not, ◌&&◌, ◌||◌, List, [], ◌∷◌, map, Option, none, some, str_eq,
  concat, find, length, leb, ◌==◌, code_units, if◌then◌else◌, is_some,
}
use dep_customs.Access.{Role, tenant_role, metadata, can_direct_create_tenant_role}
use dep_customs.Access.Projects.{
  ProjectMemberRow, ProjectRow, ErrorResponse, HttpResult, ok_result, error_result,
}
use dep_customs.Tenants.Guards.{
  ◌>>=◌, Caller, error_of, require, validate_uuid_param, require_tenant_param_access,
  require_tenant_capability, require_resolved_project_access,
}
use dep_customs.Tenants.Users.{
  AuthAdminUser, AuthFailure, misconfigured, other, upstream, Reply, replied, failed,
}
use dep_customs.Tenants.Rows.{
  MembershipRow, TenantTables, answered, refused, rejected, Handled, untouched, is_membership,
  scoped_project_id, record_member,
}

abbrev pub role_test : (Role → Bool) → String → Bool
role_test test role = elim (tenant_role role) [ none ↦ false | some r ↦ test r ]

unfoldable pub is_direct_creatable_tenant_role : String → Bool
is_direct_creatable_tenant_role = role_test (λ r. (metadata r).direct_create_assignable)

unfoldable pub is_manageable_tenant_role : String → Bool
is_manageable_tenant_role role = is_some (tenant_role role) && not (str_eq role "owner")

pub record CreateMemberBody : Type 0 where
  pub email : String
  pub password : String
  pub role : String
  pub project_id : Option String

abbrev pub is_optional_uuid : (is_uuid : String → Bool) → Option String → Bool
is_optional_uuid is_uuid none = true
is_optional_uuid is_uuid (some id) = is_uuid id

abbrev pub is_password : String → Bool
is_password password = leb 8 (length (code_units password))

unfoldable pub create_member_schema : (is_uuid is_email : String → Bool) → CreateMemberBody → Bool
create_member_schema is_uuid is_email body =
    is_email body.email
    && is_password body.password
    && is_direct_creatable_tenant_role body.role
    && is_optional_uuid is_uuid body.project_id

-- whether one role stands to another in a relation, if both are roles
abbrev pub related : (Role → Role → Bool) → (actor_role target_role : String) → Bool
related test actor_role target_role =
    role_test (λ actor. role_test (test actor) target_role) actor_role

-- the access to a project, if one is named
unfoldable pub require_scoped_access :
    List ProjectRow → List ProjectMemberRow → Caller → Option String → HttpResult (Unit {0})
require_scoped_access projects members caller none = ok_result tt
require_scoped_access projects members caller (some project_id) = do
  _ ← require_resolved_project_access projects members caller project_id false
  ok_result tt

-- the checks of the handler, with the tenant
unfoldable pub create_member_guard :
    (is_uuid : String → Bool)
    → List ProjectRow
    → List ProjectMemberRow
    → Caller
    → (tenant_id role : String) → (scoped : Option String) → HttpResult String
create_member_guard is_uuid projects members caller tenant_id role scoped = do
  tenant ← require_tenant_param_access is_uuid caller tenant_id
  _ ←
      require_tenant_capability caller "members.create_password_user"
        "You do not have access to create tenant accounts"
  _ ← require (related can_direct_create_tenant_role caller.role role) (
      error_of 403 "FORBIDDEN"
        (concat ("You do not have access to create users with role \"" ∷ role ∷ "\"" ∷ [])))
  _ ← require_scoped_access projects members caller scoped
  ok_result tenant

abbrev service_misconfigured : ErrorResponse
service_misconfigured = error_of 500 "SERVER_MISCONFIGURED" "Auth service is not configured"

abbrev create_failure : AuthFailure → ErrorResponse
create_failure misconfigured = service_misconfigured
create_failure other = error_of 500 "CREATE_MEMBER_FAILED" "Failed to create user"
create_failure (upstream status) =
    if status == 400 || status == 409 || status == 422
    then error_of 409 "USER_EXISTS" "A user with that email already exists"
    else error_of 500 "CREATE_MEMBER_FAILED" "Failed to create user"

pub record CreatedMember : Type 0 where
  pub email : String
  pub role : String

abbrev pub record_failure : ErrorResponse
record_failure = error_of 500 "CREATE_MEMBER_FAILED" "Failed to record membership for the new user"

-- what follows the call of the auth service
unfoldable pub created_member :
    (commits : Bool)
    → (tenant_id : String) → (scoped : Option String) → CreateMemberBody
    → Reply AuthAdminUser
    → TenantTables
    → Handled CreatedMember
created_member commits tenant_id scoped body (failed e) tables =
    untouched tables (refused (create_failure e))
created_member commits tenant_id scoped body (replied user) tables =
    elim (record_member commits user.id tenant_id body.role scoped tables) [
      | none ↦ record {
        tables = tables;
        delete_requests = user.id ∷ [];
        answer = refused record_failure;
      }
      | some next ↦ untouched next (answered (record { email = body.email; role = body.role }))
    ]

unfoldable pub create_member :
    (is_uuid is_email : String → Bool)
    → List ProjectRow
    → Caller
    → (tenant_id : String) → CreateMemberBody
    → (create_user : Reply AuthAdminUser) → (commits : Bool) → TenantTables
    → Handled CreatedMember
create_member is_uuid is_email projects caller tenant_id body create_user commits tables =
    let scoped = scoped_project_id body.role body.project_id in
    if not (create_member_schema is_uuid is_email body)
    then untouched tables rejected
    else elim (create_member_guard is_uuid projects tables.project_members caller tenant_id
        body.role scoped) [
          | error_result e ↦ untouched tables (refused e)
          | ok_result tenant ↦ created_member commits tenant scoped body create_user tables
        ]

-- the checks of the other handler, with the tenant and the user
unfoldable pub member_guard :
    (is_uuid : String → Bool)
    → Caller
    → (tenant_id user_id capability : String) → HttpResult (String × String)
member_guard is_uuid caller tenant_id user_id capability = do
  tenant ← require_tenant_param_access is_uuid caller tenant_id
  user ← validate_uuid_param is_uuid user_id "User ID"
  _ ← require_tenant_capability caller capability "Access denied"
  ok_result (tenant, user)

abbrev pub user_not_found : ErrorResponse
user_not_found = error_of 404 "NOT_FOUND" "User not found in this tenant"

-- the update of the row
abbrev pub set_role : (user_id tenant_id role : String) → MembershipRow → MembershipRow
set_role user_id tenant_id role m =
    if is_membership user_id tenant_id m then record m { role = role } else m

unfoldable pub changed_role :
    (tenant_id user_id role : String) → TenantTables → Handled MembershipRow
changed_role tenant_id user_id role tables =
    elim (find (is_membership user_id tenant_id) tables.memberships) [
      | none ↦ untouched tables (refused user_not_found)
      | some existing ↦
          if str_eq existing.role "owner"
          then untouched tables (
              refused (
                error_of 409 "INVALID_STATE"
                  "Owner role cannot be changed through member management"))
          else untouched
              (record tables {
                memberships = map (set_role user_id tenant_id role) tables.memberships;
              })
              (answered (record existing { role = role }))
    ]

unfoldable pub patch_member_role :
    (is_uuid : String → Bool)
    → Caller
    → (tenant_id user_id role : String) → TenantTables
    → Handled MembershipRow
patch_member_role is_uuid caller tenant_id user_id role tables =
    if not (is_manageable_tenant_role role)
    then untouched tables rejected
    else elim (member_guard is_uuid caller tenant_id user_id "members.write_roles") [
      | error_result e ↦ untouched tables (refused e)
      | ok_result (tenant, user) ↦ changed_role tenant user role tables
    ]
