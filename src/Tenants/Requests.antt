-- ===== src/Tenants/Requests.antt =====
-- The requests that change the memberships, each with its caller and with what the auth service and
-- the database do, and what a sequence of them does to the tables.
use dep_customs.Prelude.{String, Bool, List, [], ◌∷◌}
use dep_customs.Access.Projects.{ProjectRow}
use dep_customs.Tenants.Guards.{Caller}
use dep_customs.Tenants.Users.{AuthAdminUser, Reply}
use dep_customs.Tenants.Rows.{TenantTables}
use dep_customs.Tenants.Members.{CreateMemberBody, create_member, patch_member_role}
use dep_customs.Tenants.Grants.{InviteMemberBody, grant_tenant_access}
use dep_customs.Tenants.Effects.{Effect}
use dep_customs.Tenants.Handlers.{
  create_member-Effect, grant_tenant_access-Effect, patch_member_role-Effect,
}

pub data Change : Type 0 where
  create_request : CreateMemberBody → Reply AuthAdminUser → (commits : Bool) → Change
  grant_request :
      InviteMemberBody
      → Reply (List AuthAdminUser)
      → Reply AuthAdminUser
      → (commits : Bool) → Change
  role_request : (user_id role : String) → Change

pub record Request : Type 0 where
  pub caller : Caller
  pub projects : List ProjectRow
  pub tenant_id : String
  pub change : Change

module _ (is_uuid is_email : String → Bool) (to_lower_case : String → String) where
  unfoldable pub handle_change :
      (caller : Caller)
      → (projects : List ProjectRow) → (tenant_id : String) → Change
      → TenantTables
      → TenantTables
  handle_change caller projects tenant_id (create_request body user commits) t =
      (create_member is_uuid is_email projects caller tenant_id body user commits t).tables
  handle_change caller projects tenant_id (grant_request body users invited commits) t =
      (grant_tenant_access is_uuid is_email to_lower_case projects caller tenant_id body users
        invited commits t).tables
  handle_change caller projects tenant_id (role_request user_id role) t =
      (patch_member_role is_uuid caller tenant_id user_id role t).tables

  unfoldable pub handle_request : Request → TenantTables → TenantTables
  handle_request r t = handle_change r.caller r.projects r.tenant_id r.change t

  unfoldable pub handle_requests : List Request → TenantTables → TenantTables
  handle_requests [] t = t
  handle_requests (r ∷ rs) t = handle_requests rs (handle_request r t)

  handle_change-Effect :
      (caller : Caller) (projects : List ProjectRow) (tenant_id : String) (change : Change)
      (t : TenantTables)
      → Effect projects caller t (handle_change caller projects tenant_id change t)
  unfolding handle_change
  handle_change-Effect caller projects tenant_id (create_request body user commits) t =
      create_member-Effect projects caller is_uuid is_email tenant_id body user commits t
  handle_change-Effect caller projects tenant_id (grant_request body users invited commits) t =
      grant_tenant_access-Effect projects caller is_uuid is_email to_lower_case tenant_id body users
        invited commits t
  handle_change-Effect caller projects tenant_id (role_request user_id role) t =
      patch_member_role-Effect projects caller is_uuid tenant_id user_id role t

  pub handle_request-Effect :
      (r : Request) (t : TenantTables) → Effect r.projects r.caller t (handle_request r t)
  unfolding handle_request
  handle_request-Effect r t = handle_change-Effect r.caller r.projects r.tenant_id r.change t
