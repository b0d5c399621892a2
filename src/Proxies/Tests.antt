-- ===== src/Proxies/Tests.antt =====
-- A tenant with a proxy, whose secrets have their own text as hash.
use dep_customs.Prelude.{
  ℕ, ◌+◌, ◌*◌, String, ◌≡◌, ◌≢◌, ◌↔◌, refl, true, [], ◌∷◌, ◌&&◌, Option, none, some, arith, str_eq,
  eq_iff, ltb, ◌||◌, if◌then◌else◌,
}
use dep_customs.Access.Projects.{ok_result}
use dep_customs.Tokens.{proxy_allows_tenant}
use dep_customs.Tenants.Guards.{Caller}
use dep_customs.Proxies.{
  ProxyRow, LifecycleInput, with_secret, rotate_proxy_secret, disable_proxy, revoke_proxy,
}
use dep_customs.Proxies.Auth.{ProxyCredentials, succeeded, authenticate_bootstrap_proxy}
use dep_customs.Proxies.Jwt.{
  JwtPayload, payload_of, proxy_input, parse_tenant_scope, issue_proxy_runtime_token,
  verify_proxy_runtime_token,
}
use dep_customs.Proxies.Exchange.{Issuer, issue_for, exchange_proxy_runtime_token}
use dep_customs.Proxies.Routes.{scope_request, handle_proxy_request}
use dep_customs.Proxies.Secrets.{IsEntitled, exchange_proxy_runtime_token-IsEntitled}
use dep_customs.Proxies.Rotation.{IsTaken, rotate_proxy_secret-IsTaken, exchange-stopped}
use dep_customs.Proxies.Issued.{IsVerified, issue_proxy_runtime_token-verify}
use dep_customs.Proxies.Sharing.{IsConfined, handle_proxy_request-IsConfined}

abbrev proxy : ProxyRow
proxy = record {
  id = "1";
  proxy_id = "p";
  tenant_id = "t";
  name = "edge";
  status = "active";
  tenant_scope = "owner_only";
  secret_hash = "old";
  secret_prev_hash = none;
  secret_prev_expires_at = none;
  disabled_at = none;
  secret_rotated_at = none;
  last_seen_at = none;
  created_at = 0;
  updated_at = 0;
}

abbrev same_text : String → String
same_text s = s

abbrev sent : String → ProxyCredentials
sent secret = record { proxy_secret = some secret; proxy_id = some "p"; proxy_ip = none }

abbrev sign : JwtPayload → String
sign p = "token"

abbrev issuer : Issuer
issuer = record { sign = sign; jti = "j"; ttl_seconds = 600 }

exchange_proxy_runtime_token-IsEntitled_example :
    (r : ProxyRow) × (issue_for issuer 7 proxy ≡ issue_for issuer 7 r)
    × IsEntitled same_text 7 (sent "old") (proxy ∷ []) r
unfolding exchange_proxy_runtime_token dep_customs.Proxies.Exchange.exchanged
    authenticate_bootstrap_proxy dep_customs.Proxies.Auth.require_bootstrap_authenticated_proxy
    dep_customs.Proxies.Auth.check_secret dep_customs.Proxies.Auth.hashes_match
    dep_customs.Proxies.Auth.with_usable_status
exchange_proxy_runtime_token-IsEntitled_example =
    exchange_proxy_runtime_token-IsEntitled same_text issuer 7 (sent "old") (proxy ∷ [])
      (issue_for issuer 7 proxy) refl

abbrev input : LifecycleInput
input = record { tenant_id = "t"; proxy_id = "p"; actor_user_id = "u" }

rotate_proxy_secret-IsTaken_example :
    (authenticate_bootstrap_proxy same_text 3599999
        (sent "old")
        (rotate_proxy_secret same_text "new" 0 input (proxy ∷ [])).rows
      ≡ succeeded (with_secret 0 "new" proxy))
    ↔ IsTaken "new" "old" 0 3599999 "old"
rotate_proxy_secret-IsTaken_example =
    rotate_proxy_secret-IsTaken same_text "new" "old" 0 3599999 input none (proxy ∷ []) proxy
      (λ e. ground (arith, eq_iff "old" "", e)) (λ e. ground (arith, eq_iff "p" "", e)) refl refl
      (λ e. ground (arith, eq_iff "active" "disabled", e))
      (λ e. ground (arith, eq_iff "active" "revoked", e)) (λ e. ground (arith, eq_iff "new" "", e))
      (λ e. ground (arith, eq_iff "old" "", e))

exchange-stopped_example :
    ((exchange_proxy_runtime_token same_text issuer 9
        (sent "old")
        (disable_proxy 0 input (proxy ∷ [])).rows).answer
      ≢ ok_result (issue_for issuer 9 proxy))
    × ((exchange_proxy_runtime_token same_text issuer 9
          (sent "old")
          (revoke_proxy 0 input (proxy ∷ [])).rows).answer
        ≢ ok_result (issue_for issuer 9 proxy))
exchange-stopped_example =
    exchange-stopped same_text issuer 0 9 input (sent "old") (proxy ∷ []) proxy
      (issue_for issuer 9 proxy) refl refl refl

abbrev payload : JwtPayload
payload = payload_of "j" (0 + 600 * 1000) (proxy_input "p" "t" (some "owner_only"))

-- it knows of one token
abbrev jwt_verify : (issuer audience : String) → (now : ℕ) → (token : String) → Option JwtPayload
jwt_verify iss audience now token =
    if str_eq token "token" && ltb now 600000 then some payload else none

is_verified : IsVerified sign jwt_verify payload
is_verified = record {
  verifies = λ now exp e lt.
      let expiry : some 600 ≡ some exp = e in
      let at : 600 ≡ exp = cc expiry in
      let early : ltb now 600000 ≡ true = ground (arith, lt, at) in rw early refl;
}

issue_proxy_runtime_token-verify_example :
    (verify_proxy_runtime_token jwt_verify 5
        (issue_proxy_runtime_token sign "j" 600 0 "p" "t" (some "owner_only")).access_token
      ≡ some (record {
        proxy_id = "p";
        tenant_id = "t";
        tenant_scope = some (parse_tenant_scope (some "owner_only"));
      }))
    × ((other : String)
        → proxy_allows_tenant
            (record {
              proxy_id = "p";
              tenant_id = "t";
              tenant_scope = some (parse_tenant_scope (some "owner_only"));
            })
            other
          ≡ (str_eq "owner_only" "all_tenants" || str_eq other "t"))
issue_proxy_runtime_token-verify_example =
    issue_proxy_runtime_token-verify sign jwt_verify "j" 600 0 5 "p" "t" "owner_only" is_verified
      (λ e. ground (arith, eq_iff "t" "", e)) (omega arith)

abbrev administrator : Caller
administrator = record { tenant_id = "t"; tenant_kind = none; user_id = "u"; role = "admin" }

handle_proxy_request-IsConfined_example :
    IsConfined administrator
      (proxy ∷ [])
      (handle_proxy_request
        (λ _. true)
        same_text
        0
        administrator
        (scope_request "p" "all_tenants")
        (proxy ∷ [])).0
handle_proxy_request-IsConfined_example =
    handle_proxy_request-IsConfined (λ _. true) same_text 0 administrator
      (scope_request "p" "all_tenants") (proxy ∷ [])
