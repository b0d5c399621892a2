-- ===== src/Proxies/Routes.antt =====
-- features/proxies/routes.ts: the requests that change proxies.
use dep_customs.Prelude.{
  ℕ, String, Bool, not, ◌&&◌, ◌||◌, List, Option, none, some, str_eq, leb, code_units, length,
  if◌then◌else◌,
}
use dep_customs.Access.Projects.{ErrorResponse, HttpResult, ok_result, error_result}
use dep_customs.Tenants.Guards.{
  ◌>>=◌, Caller, error_of, validate_uuid_param, require_tenant_capability,
}
use dep_customs.Tenants.Rows.{Answer, answered, refused, rejected}
use dep_customs.Proxies.{
  ProxyRow, ProxyChange, LifecycleInput, disable_proxy, enable_proxy, revoke_proxy,
  rotate_proxy_secret, create_proxy, generate_proxy_secret, update_proxy_tenant_scope,
}

-- a request, with what is drawn at random for it
pub data ProxyRequest : Type 0 where
  create_request : (name id proxy_id random_hex : String) → ProxyRequest
  disable_request enable_request revoke_request : (proxy_id : String) → ProxyRequest
  scope_request : (proxy_id tenant_scope : String) → ProxyRequest
  rotate_request : (proxy_id random_hex : String) → ProxyRequest

pub data ProxyAnswer : Type 0 where
  created : (proxy_id secret : String) → ProxyAnswer
  status_of : (proxy_id status : String) → ProxyAnswer
  scope_of : (proxy_id tenant_scope : String) → ProxyAnswer
  rotated : (proxy_id secret : String) → ProxyAnswer

abbrev pub proxy_not_found : ErrorResponse
proxy_not_found = error_of 404 "NOT_FOUND" "Proxy not found"

abbrev pub require_proxies_write : Caller → HttpResult (Unit {0})
require_proxies_write caller =
    require_tenant_capability caller "proxies.write" "You do not have access to manage proxies"

unfoldable pub write_guard :
    (is_uuid : String → Bool) → Caller → (proxy_id : String) → HttpResult String
write_guard is_uuid caller proxy_id = do
  id ← validate_uuid_param is_uuid proxy_id "Proxy ID"
  _ ← require_proxies_write caller
  ok_result id

abbrev pub require_platform : Caller → (tenant_scope : String) → HttpResult (Unit {0})
require_platform caller tenant_scope =
    if str_eq tenant_scope "all_tenants"
    then require_tenant_capability caller "platform.proxies.set_all_tenants"
        "You do not have access to share proxies across tenants"
    else ok_result tt

unfoldable pub scope_guard :
    (is_uuid : String → Bool) → Caller → (proxy_id tenant_scope : String) → HttpResult String
scope_guard is_uuid caller proxy_id tenant_scope = do
  id ← write_guard is_uuid caller proxy_id
  _ ← require_platform caller tenant_scope
  ok_result id

abbrev status_answer : (proxy_id : String) → Option ProxyRow → Answer ProxyAnswer
status_answer proxy_id none = refused proxy_not_found
status_answer proxy_id (some r) = answered (status_of proxy_id r.status)

-- `name: z.string().min(1).max(100)`, `tenant_scope: z.enum(TENANT_PROXY_SCOPES)`
abbrev pub is_name : String → Bool
is_name name = leb 1 (length (code_units name)) && leb (length (code_units name)) 100

abbrev pub is_scope : String → Bool
is_scope tenant_scope = str_eq tenant_scope "owner_only" || str_eq tenant_scope "all_tenants"

abbrev pub Done : Type 0
Done = List ProxyRow × Answer ProxyAnswer

abbrev pub lifecycle_input : Caller → (proxy_id : String) → LifecycleInput
lifecycle_input caller proxy_id = record {
  tenant_id = caller.tenant_id;
  proxy_id = proxy_id;
  actor_user_id = caller.user_id;
}

-- a handler of a change of status
abbrev pub status_done :
    (is_uuid : String → Bool)
    → Caller
    → (proxy_id : String) → (LifecycleInput → List ProxyRow → ProxyChange ProxyRow)
    → List ProxyRow
    → Done
status_done is_uuid caller proxy_id change rows = elim (write_guard is_uuid caller proxy_id) [
  | error_result e ↦ (rows, refused e)
  | ok_result id ↦
      let done = change (lifecycle_input caller id) rows in
      (done.rows, status_answer id done.result)
]

abbrev rotate_answer : (proxy_id secret : String) → Option ProxyRow → Answer ProxyAnswer
rotate_answer proxy_id secret none = refused proxy_not_found
rotate_answer proxy_id secret (some r) = answered (rotated proxy_id secret)

abbrev scope_answer : Option ProxyRow → Answer ProxyAnswer
scope_answer none = refused proxy_not_found
scope_answer (some r) = answered (scope_of r.proxy_id r.tenant_scope)

module _ (is_uuid : String → Bool) (hash_secret : String → String) where
  unfoldable pub handle_proxy_request : (now : ℕ) → Caller → ProxyRequest → List ProxyRow → Done
  handle_proxy_request now caller (create_request name id proxy_id random_hex) rows =
      if not (is_name name) then (rows, rejected) else elim (require_proxies_write caller) [
        | error_result e ↦ (rows, refused e)
        | ok_result _ ↦
            let secret = generate_proxy_secret random_hex in
            (
              create_proxy hash_secret id proxy_id secret now caller.tenant_id name rows,
              answered (created proxy_id secret),
            )
      ]
  handle_proxy_request now caller (disable_request proxy_id) rows =
      status_done is_uuid caller proxy_id (disable_proxy now) rows
  handle_proxy_request now caller (enable_request proxy_id) rows =
      status_done is_uuid caller proxy_id (enable_proxy now) rows
  handle_proxy_request now caller (revoke_request proxy_id) rows =
      status_done is_uuid caller proxy_id (revoke_proxy now) rows
  handle_proxy_request now caller (scope_request proxy_id tenant_scope) rows =
      if not (is_scope tenant_scope)
      then (rows, rejected)
      else elim (scope_guard is_uuid caller proxy_id tenant_scope) [
        | error_result e ↦ (rows, refused e)
        | ok_result id ↦
            let (rows', row) =
              update_proxy_tenant_scope now caller.tenant_id id tenant_scope rows in
            (rows', scope_answer row)
      ]
  handle_proxy_request now caller (rotate_request proxy_id random_hex) rows =
      elim (write_guard is_uuid caller proxy_id) [
        | error_result e ↦ (rows, refused e)
        | ok_result id ↦
            let secret = generate_proxy_secret random_hex in
            let done =
              rotate_proxy_secret hash_secret secret now (lifecycle_input caller id) rows in
            (done.rows, rotate_answer id secret done.result)
      ]
