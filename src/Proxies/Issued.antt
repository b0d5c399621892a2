-- ===== src/Proxies/Issued.antt =====
-- A token that is issued is read back.
use dep_customs.Prelude.{
  ℕ, ◌+◌, ◌*◌, ◌/◌, ◌<◌, String, ◌≡◌, ◌≢◌, refl, false, ◌||◌, Option, some, inl, inr, str_eq,
  eq_iff, arith, Bool-cases,
}
use dep_customs.Tokens.{proxy_allows_tenant}
use dep_customs.Proxies.Jwt.{
  JwtPayload, payload_of, proxy_input, issue_internal_service_runtime_token,
  issue_proxy_runtime_token, parse_tenant_scope, verify_internal_service_runtime_token,
  verify_proxy_runtime_token,
}

-- What the library documents of a payload: once signed it is verified to itself, if the issuer and the
-- audience are those asked for and it has not expired.
pub record IsVerified (sign : JwtPayload → String)
    (jwt_verify : (issuer audience : String) → (now : ℕ) → (token : String) → Option JwtPayload)
    (p : JwtPayload) : Type 0 where
  pub verifies :
      (now exp : ℕ)
      → p.exp ≡ some exp
      → now < exp * 1000
      → jwt_verify p.iss p.aud now (sign p) ≡ some p

-- Until the second in which it expires, the token of a proxy is accepted, for the proxy and its tenant,
-- and it may act for another tenant just if its scope is all tenants.
pub issue_proxy_runtime_token-verify :
    (sign : JwtPayload → String)
    (jwt_verify : (issuer audience : String) → (now : ℕ) → (token : String) → Option JwtPayload)
    (jti : String) (ttl_seconds now later : ℕ) (proxy_id tenant_id scope : String)
    → IsVerified sign jwt_verify
        (payload_of jti (now + ttl_seconds * 1000) (proxy_input proxy_id tenant_id (some scope)))
    → tenant_id ≢ ""
    → later < (now + ttl_seconds * 1000) / 1000 * 1000
    → (verify_proxy_runtime_token jwt_verify later
          (issue_proxy_runtime_token sign jti ttl_seconds now proxy_id tenant_id
            (some scope)).access_token
        ≡ some (record {
          proxy_id = proxy_id;
          tenant_id = tenant_id;
          tenant_scope = some (parse_tenant_scope (some scope));
        }))
      × ((other : String)
          → proxy_allows_tenant
              (record {
                proxy_id = proxy_id;
                tenant_id = tenant_id;
                tenant_scope = some (parse_tenant_scope (some scope));
              })
              other
            ≡ (str_eq scope "all_tenants" || str_eq other tenant_id))
unfolding verify_proxy_runtime_token verify_internal_service_runtime_token issue_proxy_runtime_token
    issue_internal_service_runtime_token parse_tenant_scope proxy_allows_tenant
issue_proxy_runtime_token-verify sign jwt_verify jti ttl_seconds now later proxy_id tenant_id scope
      jose ne lt =
    let no : str_eq tenant_id "" ≡ false = ground (arith, eq_iff tenant_id "", ne) in
    let v = jose.verifies later ((now + ttl_seconds * 1000) / 1000) refl lt in
    (
      rw (v, no) refl,
      (λ other. elim (Bool-cases (str_eq scope "all_tenants")) [
        | inl e ↦ rw e refl
        | inr e ↦ rw e refl
      ]),
    )
