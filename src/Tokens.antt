-- ===== src/Tokens.antt =====
-- Project tokens: features/tokens/service.ts, and the lookup of a token by the check service
-- (connect/check-service.ts, connect/proxy-context.ts). The table project_tokens is a list of rows;
-- an operation takes it and returns the new one. The hash, which is SHA-256, is a parameter; the
-- random token, the new row's id and the clock are arguments. Times are milliseconds.
pub mod Roles
pub mod Lifecycle
pub mod Authorized
pub mod Routes
pub mod Tests
use Prim.Native.String
use dep_customs.Prelude.{
  ℕ, zero, suc, ◌-◌, String, Bool, true, false, not, ◌&&◌, ◌||◌, List, [], ◌∷◌, ◌++◌, map, Option,
  none, some, str_eq, size, ltb, leb, if◌then◌else◌, is_some, filter, find, any, sort,
}
use dep_customs.Access.{Role, tenant_role, CapabilityContext, no_context, can_perform}
use dep_customs.Access.Projects.{ProjectRow}

pub record TokenRow : Type 0 where
  pub id : String
  pub project_id : String
  pub tenant_id : String
  pub name : String
  pub owner_user_id : String
  pub created_by_user_id : String
  pub token_hash : String
  pub token_prefix : String
  pub created_at : ℕ
  pub expires_at : Option ℕ
  pub revoked_at : Option ℕ
  pub revoked_by_user_id : Option String

pub data TokenAction : Type 0 where
  revoke rotate : TokenAction

abbrev role_can : String → CapabilityContext → Option Role → Bool
role_can capability context none = false
role_can capability context (some role) = can_perform role capability context

unfoldable pub can_create_project_token : String → Bool
can_create_project_token role = role_can "tokens.create" no_context (tenant_role role)

pub record TokenReads : Type 0 where
  pub can_read_all : Bool
  pub can_read_own : Bool
  pub can_read_actor_profiles : Bool

unfoldable pub can_read_project_tokens : String → TokenReads
can_read_project_tokens role = record {
  can_read_all = role_can "tokens.read_all" no_context (tenant_role role);
  can_read_own = role_can "tokens.read_own" no_context (tenant_role role);
  can_read_actor_profiles = role_can "members.read" no_context (tenant_role role);
}

abbrev owning : Bool → CapabilityContext
owning owns_token = record no_context { owns_token = some owns_token }

unfoldable pub can_manage_existing_token : String → TokenAction → Bool → Bool
can_manage_existing_token role revoke owns_token =
    role_can "tokens.revoke_any" no_context (tenant_role role)
    || role_can "tokens.revoke_own" (owning owns_token) (tenant_role role)
can_manage_existing_token role rotate owns_token =
    role_can "tokens.rotate_any" no_context (tenant_role role)
    || role_can "tokens.rotate_own" (owning owns_token) (tenant_role role)

-- `token.slice(-6)`
abbrev drop_chars : ℕ → String → String
drop_chars zero s = s
drop_chars (suc n) String.[] = String.[]
drop_chars (suc n) (String.◌∷◌ c s) = drop_chars n s

unfoldable pub token_prefix_of : String → String
token_prefix_of token = drop_chars (size token - 6) token

-- what an insert is given: the generated token and id, and the fields of the request
pub record NewToken : Type 0 where
  pub token : String
  pub id : String
  pub project_id : String
  pub tenant_id : String
  pub user_id : String
  pub name : String
  pub expires_at : Option ℕ
  pub now : ℕ

-- what the caller is told
pub record IssuedToken : Type 0 where
  pub token : String
  pub id : String
  pub prefix : String
  pub expires_at : Option ℕ

abbrev issued : String → TokenRow → IssuedToken
issued token row = record {
  token = token;
  id = row.id;
  prefix = row.token_prefix;
  expires_at = row.expires_at;
}

-- the row of an insert, with its owner
unfoldable pub new_row : (String → String) → NewToken → (owner_user_id : String) → TokenRow
new_row hash_project_token new owner_user_id = record {
  id = new.id;
  project_id = new.project_id;
  tenant_id = new.tenant_id;
  name = new.name;
  owner_user_id = owner_user_id;
  created_by_user_id = new.user_id;
  token_hash = hash_project_token new.token;
  token_prefix = token_prefix_of new.token;
  created_at = new.now;
  expires_at = new.expires_at;
  revoked_at = none;
  revoked_by_user_id = none;
}

unfoldable pub create_project_token :
    (String → String) → NewToken → List TokenRow → List TokenRow × IssuedToken
create_project_token hash_project_token new tokens =
    let row = new_row hash_project_token new new.user_id in
    (tokens ++ row ∷ [], issued new.token row)

unfoldable pub list_project_tokens :
    (project_id user_id : String) (can_read_all : Bool) → List TokenRow → List TokenRow
list_project_tokens project_id user_id can_read_all tokens =
    sort (λ r s. ltb r.created_at s.created_at)
      (filter
        (λ r. str_eq r.project_id project_id && (can_read_all || str_eq r.owner_user_id user_id))
        tokens)

unfoldable pub is_token : (token_id project_id : String) → TokenRow → Bool
is_token token_id project_id r = str_eq r.id token_id && str_eq r.project_id project_id

-- `loadExistingProjectToken` and `loadRotatableProjectToken`, which select some of the columns
unfoldable pub load_existing_project_token :
    (token_id project_id : String) → List TokenRow → Option TokenRow
load_existing_project_token token_id project_id tokens = find (is_token token_id project_id) tokens

unfoldable pub is_unrevoked_token : (token_id project_id : String) → TokenRow → Bool
is_unrevoked_token token_id project_id r =
    is_token token_id project_id r && not (is_some r.revoked_at)

-- the update that revokes
unfoldable pub revoke_row : (token_id project_id user_id : String) → ℕ → TokenRow → TokenRow
revoke_row token_id project_id user_id now r =
    if is_unrevoked_token token_id project_id r
    then record r {
      expires_at = some now;
      revoked_at = some now;
      revoked_by_user_id = some user_id;
    }
    else r

abbrev id_of : Option TokenRow → Option String
id_of none = none
id_of (some r) = some r.id

unfoldable pub revoke_project_token :
    (token_id project_id user_id : String) → ℕ → List TokenRow → List TokenRow × Option String
revoke_project_token token_id project_id user_id now tokens = (
  map (revoke_row token_id project_id user_id now) tokens,
  id_of (find (is_unrevoked_token token_id project_id) tokens),
)

-- the transaction: an insert of the next token, then the update that revokes the old one
unfoldable pub rotate_project_token :
    (String → String)
    → (token_id : String) → NewToken
    → TokenRow
    → List TokenRow
    → List TokenRow × IssuedToken
rotate_project_token hash_project_token token_id new existing tokens =
    let next =
      new_row hash_project_token
        (record new { name = existing.name; expires_at = existing.expires_at })
        existing.owner_user_id in
    (
      map (revoke_row token_id new.project_id new.user_id new.now) (tokens ++ next ∷ []),
      issued new.token next,
    )

-- connect/proxy-context.ts
pub record VerifiedProxyContext : Type 0 where
  pub proxy_id : String
  pub tenant_id : String
  pub tenant_scope : Option String

abbrev is_all_tenants : Option String → Bool
is_all_tenants none = false
is_all_tenants (some scope) = str_eq scope "all_tenants"

unfoldable pub proxy_allows_tenant : VerifiedProxyContext → String → Bool
proxy_allows_tenant proxy tenant_id =
    is_all_tenants proxy.tenant_scope || str_eq tenant_id proxy.tenant_id

-- the expiry is not reached
abbrev pub is_unexpired : ℕ → Option ℕ → Bool
is_unexpired now none = true
is_unexpired now (some at) = not (leb at now)

-- the join with the current projects, on the hash
unfoldable pub has_hash : List ProjectRow → String → TokenRow → Bool
has_hash projects hash r =
    str_eq r.token_hash hash && any (λ p. str_eq r.project_id p.id && p.is_current) projects

abbrev accept : VerifiedProxyContext → ℕ → Option TokenRow → Option TokenRow
accept proxy now none = none
accept proxy now (some r) =
    if proxy_allows_tenant proxy r.tenant_id
      && not (is_some r.revoked_at)
      && is_unexpired now r.expires_at
    then some r
    else none

unfoldable pub load_authorized_project_token :
    (String → String)
    → List ProjectRow
    → List TokenRow
    → VerifiedProxyContext
    → String
    → ℕ
    → Option TokenRow
load_authorized_project_token hash_project_token projects tokens proxy project_token now =
    accept proxy now (find (has_hash projects (hash_project_token project_token)) tokens)
