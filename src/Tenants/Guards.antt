-- ===== src/Tenants/Guards.antt =====
-- http/guards.ts and http/responses.ts: the checks of a request. `is_uuid` is the schema's test.
use dep_customs.Prelude.{
  ℕ, String, Bool, true, false, List, Option, none, some, str_eq, concat, [], ◌∷◌, map, filter,
  ◌&&◌, if◌then◌else◌,
}
use dep_customs.Access.{tenant_role, can_perform, has_implicit_project_access, is_owner_or_admin}
use dep_customs.Access.Projects.{
  ProjectMemberRow, ProjectRow, ErrorResponse, HttpResult, ok_result, error_result,
  resolve_project_with_access,
}

infixl 5 ◌>>=◌
abbrev pub ◌>>=◌ {ℓ κ} :
    {A : Type ℓ} {B : Type κ} → HttpResult A → (A → HttpResult B) → HttpResult B
ok_result a >>= f = f a
error_result e >>= f = error_result e

abbrev pub error_of : ℕ → (code message : String) → ErrorResponse
error_of status code message = record {
  status = status;
  code = code;
  message = message;
  detail = none;
}

abbrev pub require : Bool → ErrorResponse → HttpResult (Unit {0})
require true e = ok_result tt
require false e = error_result e

-- what the context knows of the caller
pub record Caller : Type 0 where
  pub tenant_id : String
  pub tenant_kind : Option String
  pub user_id : String
  pub role : String

unfoldable pub validate_uuid_param :
    (is_uuid : String → Bool) → (value label : String) → HttpResult String
validate_uuid_param is_uuid value label =
    if is_uuid value
    then ok_result value
    else error_result (error_of 400 "BAD_REQUEST" (concat (label ∷ " must be a valid UUID" ∷ [])))

unfoldable pub require_tenant_param_access :
    (is_uuid : String → Bool) → Caller → (tenant_id : String) → HttpResult String
require_tenant_param_access is_uuid caller tenant_id = do
  tenant ← validate_uuid_param is_uuid tenant_id "Tenant ID"
  _ ←
      require (str_eq tenant caller.tenant_id)
        (error_of 403 "FORBIDDEN" "Access denied to this tenant")
  ok_result tenant

unfoldable pub has_tenant_capability : Caller → String → Bool
has_tenant_capability caller capability = elim (tenant_role caller.role) [
  | none ↦ false
  | some role ↦
      can_perform role capability
        (record { has_project_access = none; tenant_kind = caller.tenant_kind; owns_token = none })
]

unfoldable pub require_tenant_capability :
    Caller → (capability message : String) → HttpResult (Unit {0})
require_tenant_capability caller capability message =
    require (has_tenant_capability caller capability) (error_of 403 "FORBIDDEN" message)

unfoldable pub require_tenant_capability_access :
    (is_uuid : String → Bool) → Caller → (capability message tenant_id : String) → HttpResult String
require_tenant_capability_access is_uuid caller capability message tenant_id = do
  tenant ← require_tenant_param_access is_uuid caller tenant_id
  _ ← require_tenant_capability caller capability message
  ok_result tenant

unfoldable pub require_owner_or_admin : Caller → HttpResult (Unit {0})
require_owner_or_admin caller =
    require (is_owner_or_admin caller.role)
      (error_of 403 "FORBIDDEN" "Owner or admin role required")

unfoldable pub require_tenant_owner_or_admin_access :
    (is_uuid : String → Bool) → Caller → (tenant_id : String) → HttpResult String
require_tenant_owner_or_admin_access is_uuid caller tenant_id = do
  tenant ← require_tenant_param_access is_uuid caller tenant_id
  _ ← require_owner_or_admin caller
  ok_result tenant

module _ (projects : List ProjectRow) (members : List ProjectMemberRow) where
  unfoldable pub require_resolved_project_access :
      Caller → (project_id : String) → (hide_forbidden_as_not_found : Bool) → HttpResult ProjectRow
  require_resolved_project_access caller project_id hide =
      resolve_project_with_access projects members project_id caller.tenant_id caller.user_id
        caller.role hide

  unfoldable pub require_project_access :
      (is_uuid : String → Bool)
      → Caller
      → (project_id label : String) → (hide_forbidden_as_not_found : Bool)
      → HttpResult (String × ProjectRow)
  require_project_access is_uuid caller project_id label hide = do
    id ← validate_uuid_param is_uuid project_id label
    project ← require_resolved_project_access caller id hide
    ok_result (id, project)

-- none stands for every project
unfoldable pub list_accessible_project_ids : List ProjectMemberRow → Caller → Option (List String)
list_accessible_project_ids members caller =
    if has_implicit_project_access caller.role
    then none
    else some (
        map (λ (m : ProjectMemberRow). m.project_id)
          (filter
            (λ (m : ProjectMemberRow).
              str_eq m.user_id caller.user_id && str_eq m.tenant_id caller.tenant_id)
            members))
