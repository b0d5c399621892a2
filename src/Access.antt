-- ===== src/Access.antt =====
-- middleware/rbac.ts: roles, what each may do, and whom it may invite or create. A capability is its
-- key, as in the source, where the type of capabilities is a union of texts.
pub mod Order
pub mod Invites
pub mod Projects
pub mod Tests
use dep_customs.Prelude.{
  String, Bool, true, false, not, ◌&&◌, ◌||◌, List, [], ◌∷◌, Option, none, some, or_else, str_eq,
  starts_with, if◌then◌else◌, filter, any,
}

pub data Role : Type 0 where
  owner admin demo member guest : Role

abbrev pub role_name : Role → String
role_name owner = "owner"
role_name admin = "admin"
role_name demo = "demo"
role_name member = "member"
role_name guest = "guest"

-- TENANT_ROLE_METADATA
pub record RoleMetadata : Type 0 where
  pub invite_assignable : Bool
  pub direct_create_assignable : Bool
  pub owner_level : Bool
  pub implicit_project_access : Bool

abbrev flags : (invite create owner_level implicit : Bool) → RoleMetadata
flags invite create owner_level implicit = record {
  invite_assignable = invite;
  direct_create_assignable = create;
  owner_level = owner_level;
  implicit_project_access = implicit;
}

abbrev pub metadata : Role → RoleMetadata
metadata owner = flags false false true true
metadata admin = flags true true true true
metadata demo = flags false true false true
metadata member = flags true true false false
metadata guest = flags true true false false

-- TENANT_ROLES, and the two selections of it
abbrev pub tenant_roles : List Role
tenant_roles = owner ∷ admin ∷ demo ∷ member ∷ guest ∷ []

abbrev pub assignable_tenant_roles : List Role
assignable_tenant_roles = filter (λ r. (metadata r).invite_assignable) tenant_roles

abbrev pub direct_creatable_tenant_roles : List Role
direct_creatable_tenant_roles = filter (λ r. (metadata r).direct_create_assignable) tenant_roles

-- `isTenantRole`: the role of a text, if it is one
abbrev find_role : String → List Role → Option Role
find_role name [] = none
find_role name (r ∷ roles) = if str_eq name (role_name r) then some r else find_role name roles

unfoldable pub tenant_role : String → Option Role
tenant_role name = find_role name tenant_roles

abbrev role_flag : (RoleMetadata → Bool) → Option Role → Bool
role_flag flag none = false
role_flag flag (some r) = flag (metadata r)

unfoldable pub is_owner_or_admin : String → Bool
is_owner_or_admin role = role_flag (λ m. m.owner_level) (tenant_role role)

unfoldable pub has_implicit_project_access : String → Bool
has_implicit_project_access role = role_flag (λ m. m.implicit_project_access) (tenant_role role)

-- CAPABILITY_KEYS
abbrev pub capability_keys : List String
capability_keys =
    "overview.read" ∷ "projects.read" ∷ "projects.create" ∷ "projects.delete" ∷ "events.read_tenant"
    ∷ "events.read_project" ∷ "performance.read" ∷ "policy.read_tenant" ∷ "policy.read_project"
    ∷ "policy.write_tenant" ∷ "policy.write_project" ∷ "rules.read" ∷ "rules.write"
    ∷ "policy_assignments.read" ∷ "policy_assignments.write" ∷ "policy_preview.read"
    ∷ "connectors.read" ∷ "connectors.write" ∷ "security.read_tenant" ∷ "security.read_project"
    ∷ "security.write" ∷ "packages.read_tenant" ∷ "packages.read_project" ∷ "packages.rebuild"
    ∷ "tokens.read_all" ∷ "tokens.read_own" ∷ "tokens.create" ∷ "tokens.revoke_any"
    ∷ "tokens.revoke_own" ∷ "tokens.rotate_any" ∷ "tokens.rotate_own" ∷ "members.read"
    ∷ "members.invite" ∷ "members.invite_admin" ∷ "members.invite_unscoped" ∷ "members.write_roles"
    ∷ "members.create_password_user" ∷ "members.reset_password" ∷ "settings.read" ∷ "settings.write"
    ∷ "tenant.name.write" ∷ "proxies.read" ∷ "proxies.write" ∷ "platform.proxies.set_all_tenants"
    ∷ "mcp.read" ∷ "mcp.connect" ∷ "mcp.use_project" ∷ "mcp.use_tenant" ∷ "violations.read_tenant"
    ∷ "violations.read_project" ∷ "violations.write" ∷ []

abbrev kept_from_admin : String → Bool
kept_from_admin c =
    str_eq c "mcp.use_tenant"
    || str_eq c "members.create_password_user"
    || str_eq c "tenant.name.write"

-- ROLE_CAPABILITIES
abbrev pub demo_capabilities : List String
demo_capabilities =
    "overview.read" ∷ "projects.read" ∷ "events.read_tenant" ∷ "events.read_project"
    ∷ "performance.read" ∷ "policy.read_tenant" ∷ "policy.read_project" ∷ "rules.read"
    ∷ "policy_assignments.read" ∷ "policy_preview.read" ∷ "connectors.read" ∷ "security.read_tenant"
    ∷ "security.read_project" ∷ "packages.read_tenant" ∷ "packages.read_project" ∷ "tokens.read_own"
    ∷ "tokens.create" ∷ "settings.read" ∷ "proxies.read" ∷ "mcp.read" ∷ "mcp.connect"
    ∷ "mcp.use_project" ∷ "violations.read_tenant" ∷ "violations.read_project" ∷ []

abbrev pub member_capabilities : List String
member_capabilities =
    "overview.read" ∷ "projects.read" ∷ "projects.create" ∷ "events.read_project"
    ∷ "policy.read_tenant" ∷ "policy.read_project" ∷ "rules.read" ∷ "policy_assignments.read"
    ∷ "policy_preview.read" ∷ "connectors.read" ∷ "security.read_project" ∷ "packages.read_project"
    ∷ "tokens.read_own" ∷ "tokens.create" ∷ "tokens.revoke_own" ∷ "tokens.rotate_own"
    ∷ "members.invite" ∷ "members.invite_unscoped" ∷ "proxies.read" ∷ "mcp.read" ∷ "mcp.connect"
    ∷ "mcp.use_project" ∷ "violations.read_project" ∷ []

abbrev pub guest_capabilities : List String
guest_capabilities =
    "overview.read" ∷ "projects.read" ∷ "events.read_project" ∷ "security.read_project"
    ∷ "packages.read_project" ∷ "violations.read_project" ∷ []

unfoldable pub role_capabilities : Role → List String
role_capabilities owner = capability_keys
role_capabilities admin = filter (λ c. not (kept_from_admin c)) capability_keys
role_capabilities demo = demo_capabilities
role_capabilities member = member_capabilities
role_capabilities guest = guest_capabilities

-- what is known of the request; a missing field is `none`
pub record CapabilityContext : Type 0 where
  pub has_project_access : Option Bool
  pub tenant_kind : Option String
  pub owns_token : Option Bool

abbrev pub no_context : CapabilityContext
no_context = record { has_project_access = none; tenant_kind = none; owns_token = none }

abbrev pub is_platform : Option String → Bool
is_platform none = false
is_platform (some kind) = str_eq kind "platform"

-- the cases of the `switch`
abbrev pub is_project_capability : String → Bool
is_project_capability c =
    str_eq c "security.read_project"
    || str_eq c "packages.read_project"
    || str_eq c "violations.read_project"
    || str_eq c "policy.read_project"
    || str_eq c "events.read_project"
    || str_eq c "mcp.use_project"

abbrev pub is_own_token_capability : String → Bool
is_own_token_capability c = str_eq c "tokens.revoke_own" || str_eq c "tokens.rotate_own"

unfoldable pub allowed_in : String → CapabilityContext → Bool
allowed_in capability context =
    if is_project_capability capability
    then or_else context.has_project_access true
    else if is_own_token_capability capability
    then or_else context.owns_token false
    else true

unfoldable pub can_perform : Role → String → CapabilityContext → Bool
can_perform role capability context =
    if starts_with capability "platform." && not (is_platform context.tenant_kind)
    then false
    else if any (str_eq capability) (role_capabilities role)
    then allowed_in capability context
    else false

abbrev pub same_role : Role → Role → Bool
same_role r s = str_eq (role_name r) (role_name s)

unfoldable pub get_invitable_tenant_roles : Role → List Role
get_invitable_tenant_roles role =
    if can_perform role "members.invite_admin" no_context
    then assignable_tenant_roles
    else filter (λ r. not (same_role r admin)) assignable_tenant_roles

unfoldable pub can_invite_tenant_role : (actor_role target_role : Role) → Bool
can_invite_tenant_role actor_role target_role =
    any (same_role target_role) (get_invitable_tenant_roles actor_role)

unfoldable pub can_invite_without_project_scope : Role → Bool
can_invite_without_project_scope role = can_perform role "members.invite_unscoped" no_context

unfoldable pub get_direct_creatable_tenant_roles : Role → List Role
get_direct_creatable_tenant_roles role =
    if can_perform role "members.create_password_user" no_context
    then direct_creatable_tenant_roles
    else []

unfoldable pub can_direct_create_tenant_role : (actor_role target_role : Role) → Bool
can_direct_create_tenant_role actor_role target_role =
    any (same_role target_role) (get_direct_creatable_tenant_roles actor_role)
