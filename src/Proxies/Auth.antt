-- ===== src/Proxies/Auth.antt =====
-- connect/proxy-auth.ts and features/internal-proxy-auth/bootstrap-auth-service.ts: a proxy shows its
-- secret.
use dep_customs.Prelude.{
  ℕ, String, Bool, false, not, ◌&&◌, List, Option, none, some, str_eq, find, ltb, if◌then◌else◌,
}
use dep_customs.Proxies.{ProxyRow}

pub record ProxyCredentials : Type 0 where
  pub proxy_secret : Option String
  pub proxy_id : Option String
  pub proxy_ip : Option String

unfoldable pub hashes_match : (expected_hex : Option String) → (provided_hex : String) → Bool
hashes_match none provided_hex = false
hashes_match (some expected_hex) provided_hex =
    not (str_eq expected_hex "") && str_eq expected_hex provided_hex

abbrev pub is_later : (now : ℕ) → Option ℕ → Bool
is_later now none = false
is_later now (some at) = ltb now at

unfoldable pub previous_secret_still_valid : (now : ℕ) → (secret_hash : String) → ProxyRow → Bool
previous_secret_still_valid now secret_hash r =
    hashes_match r.secret_prev_hash secret_hash && is_later now r.secret_prev_expires_at

-- a text that is there and not empty
abbrev pub given : Option String → Option String
given none = none
given (some t) = if str_eq t "" then none else some t

pub data BootstrapError : Type 0 where
  unregistered_proxy invalid_proxy_secret : BootstrapError

pub data Bootstrap : Type 0 where
  authenticated : ProxyRow → Bootstrap
  unauthenticated : BootstrapError → Bootstrap

abbrev pub has_proxy_id : String → ProxyRow → Bool
has_proxy_id proxy_id r = str_eq r.proxy_id proxy_id

unfoldable pub check_secret : (now : ℕ) → (secret_hash : String) → Option ProxyRow → Bootstrap
check_secret now secret_hash none = unauthenticated unregistered_proxy
check_secret now secret_hash (some r) =
    if not (hashes_match (some r.secret_hash) secret_hash)
      && not (previous_secret_still_valid now secret_hash r)
    then unauthenticated invalid_proxy_secret
    else authenticated r

unfoldable pub require_bootstrap_authenticated_proxy :
    (hash_secret : String → String) → (now : ℕ) → ProxyCredentials → List ProxyRow → Bootstrap
require_bootstrap_authenticated_proxy hash_secret now credentials rows =
    elim (given credentials.proxy_secret) [
      | none ↦ unauthenticated unregistered_proxy
      | some secret ↦ elim (given credentials.proxy_id) [
        | none ↦ unauthenticated unregistered_proxy
        | some proxy_id ↦ check_secret now (hash_secret secret) (find (has_proxy_id proxy_id) rows)
      ]
    ]

pub record BootstrapFailure : Type 0 where
  pub status : ℕ
  pub code : String
  pub message : String
  pub audit_proxy : Option (String × String)
  pub audit_detail : String

pub data BootstrapAuth : Type 0 where
  succeeded : ProxyRow → BootstrapAuth
  failed : BootstrapFailure → BootstrapAuth

abbrev audit_of : ProxyRow → String × String
audit_of r = (r.tenant_id, r.proxy_id)

abbrev audit_row : Option ProxyRow → Option (String × String)
audit_row none = none
audit_row (some r) = some (audit_of r)

abbrev pub audit_found : Option String → List ProxyRow → Option (String × String)
audit_found none rows = none
audit_found (some proxy_id) rows = audit_row (find (has_proxy_id proxy_id) rows)

abbrev pub failure_of : BootstrapError → Option (String × String) → BootstrapFailure
failure_of unregistered_proxy audit = record {
  status = 401;
  code = "UNREGISTERED_PROXY";
  message = "Proxy is not registered";
  audit_proxy = audit;
  audit_detail = "unregistered_proxy";
}
failure_of invalid_proxy_secret audit = record {
  status = 401;
  code = "INVALID_PROXY_SECRET";
  message = "Proxy secret is incorrect";
  audit_proxy = audit;
  audit_detail = "invalid_proxy_secret";
}

abbrev status_failure : ProxyRow → (code message event_type : String) → BootstrapAuth
status_failure r code message event_type = failed (record {
  status = 403;
  code = code;
  message = message;
  audit_proxy = some (audit_of r);
  audit_detail = event_type;
})

unfoldable pub with_usable_status : ProxyRow → BootstrapAuth
with_usable_status r =
    if str_eq r.status "disabled"
    then status_failure r "PROXY_DISABLED" "Proxy is disabled" "proxy_disabled"
    else if str_eq r.status "revoked"
    then status_failure r "PROXY_REVOKED" "Proxy is revoked" "proxy_revoked"
    else succeeded r

unfoldable pub authenticate_bootstrap_proxy :
    (hash_secret : String → String) → (now : ℕ) → ProxyCredentials → List ProxyRow → BootstrapAuth
authenticate_bootstrap_proxy hash_secret now credentials rows =
    elim (require_bootstrap_authenticated_proxy hash_secret now credentials rows) [
      | authenticated r ↦ with_usable_status r
      | unauthenticated e ↦ failed (failure_of e (audit_found (given credentials.proxy_id) rows))
    ]
