-- ===== src/Proxies/Exchange.antt =====
-- features/internal-proxy-auth/token-exchange-service.ts: a proxy's secret for a token.
use dep_customs.Prelude.{
  ℕ, String, Bool, true, false, List, [], ◌∷◌, ◌++◌, map, Option, none, some, str_eq, ◌||◌,
  if◌then◌else◌,
}
use dep_customs.Access.Projects.{HttpResult, ok_result, error_result}
use dep_customs.Proxies.{ProxyRow, StatusEvent}
use dep_customs.Proxies.Auth.{
  ProxyCredentials, BootstrapFailure, BootstrapAuth, succeeded, failed,
  authenticate_bootstrap_proxy,
}
use dep_customs.Proxies.Jwt.{JwtPayload, RuntimeToken, issue_proxy_runtime_token}

-- what a token is made with
pub record Issuer : Type 0 where
  pub sign : JwtPayload → String
  pub jti : String
  pub ttl_seconds : ℕ

abbrev pub issue_for : Issuer → (now : ℕ) → ProxyRow → RuntimeToken
issue_for issuer now r =
    issue_proxy_runtime_token issuer.sign issuer.jti issuer.ttl_seconds now r.proxy_id r.tenant_id
      (some r.tenant_scope)

pub record Exchanged : Type 0 where
  pub rows : List ProxyRow
  pub events : List StatusEvent
  pub answer : HttpResult RuntimeToken

abbrev proxy_event :
    (tenant_id proxy_id : String)
    → (proxy_ip : Option String) → (event_type : String) → Option String
    → StatusEvent
proxy_event tenant_id proxy_id proxy_ip event_type detail = record {
  tenant_id = tenant_id;
  proxy_id = proxy_id;
  proxy_ip = proxy_ip;
  event_type = event_type;
  actor_user_id = none;
  detail = detail;
}

abbrev attempt_if : Bool → StatusEvent → List StatusEvent
attempt_if true e = e ∷ []
attempt_if false e = []

unfoldable pub failure_events : (proxy_ip : Option String) → BootstrapFailure → List StatusEvent
failure_events proxy_ip f = elim f.audit_proxy [
  | none ↦ []
  | some (tenant_id, proxy_id) ↦
      attempt_if (str_eq f.code "PROXY_DISABLED" || str_eq f.code "PROXY_REVOKED")
        (proxy_event tenant_id proxy_id proxy_ip "token_exchange_attempt" none)
      ++ proxy_event tenant_id proxy_id proxy_ip "token_exchange_failed" (some f.audit_detail) ∷ []
]

abbrev pub seen : (now : ℕ) → (id : String) → ProxyRow → ProxyRow
seen now id r = if str_eq r.id id then record r { last_seen_at = some now } else r

unfoldable pub exchanged :
    (issuer : Issuer)
    → (now : ℕ) → (proxy_ip : Option String) → List ProxyRow
    → BootstrapAuth
    → Exchanged
exchanged issuer now proxy_ip rows (failed f) = record {
  rows = rows;
  events = failure_events proxy_ip f;
  answer =
      error_result
        (record { status = f.status; code = f.code; message = f.message; detail = none });
}
exchanged issuer now proxy_ip rows (succeeded r) = record {
  rows = map (seen now r.id) rows;
  events =
      proxy_event r.tenant_id r.proxy_id proxy_ip "token_exchange_attempt" none
      ∷ proxy_event r.tenant_id r.proxy_id proxy_ip "token_issued" none
      ∷ [];
  answer = ok_result (issue_for issuer now r);
}

unfoldable pub exchange_proxy_runtime_token :
    (hash_secret : String → String)
    → (issuer : Issuer) → (now : ℕ) → ProxyCredentials
    → List ProxyRow
    → Exchanged
exchange_proxy_runtime_token hash_secret issuer now credentials rows =
    exchanged issuer now credentials.proxy_ip rows
      (authenticate_bootstrap_proxy hash_secret now credentials rows)
