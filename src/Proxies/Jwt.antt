-- ===== src/Proxies/Jwt.antt =====
-- auth/internal-service-jwt.ts and proxy-jwt.ts: the tokens of internal services. The library that
-- signs and verifies, with its key, is a parameter; of a payload the texts are modelled.
use dep_customs.Prelude.{
  ◌>>=◌, ℕ, ◌+◌, ◌*◌, ◌/◌, String, List, [], ◌∷◌, ◌++◌, Option, none, some, str_eq, lookup, or_else,
  if◌then◌else◌,
}
use dep_customs.Tokens.{VerifiedProxyContext}

pub record JwtPayload : Type 0 where
  pub iss : String
  pub aud : String
  pub sub : Option String
  pub jti : Option String
  -- seconds
  pub exp : Option ℕ
  pub scope : List String
  pub claims : List (String × String)

pub record InternalServiceClaims : Type 0 where
  pub service : String
  pub tenant_id : Option String
  pub project_id : Option String
  pub scope : List String
  pub subject : String
  pub audience : String
  pub claims : List (String × String)

pub record RuntimeToken : Type 0 where
  pub access_token : String
  pub expires_at : ℕ
  pub refresh_after : ℕ

abbrev pub claim_if_any : String → Option String → List (String × String)
claim_if_any key none = []
claim_if_any key (some value) = if str_eq value "" then [] else (key, value) ∷ []

-- later members of the object stand first
abbrev pub payload_of : (jti : String) → (expires_at : ℕ) → InternalServiceClaims → JwtPayload
payload_of jti expires_at input = record {
  iss = "customs-control-plane";
  aud = input.audience;
  sub = some input.subject;
  jti = some jti;
  exp = some (expires_at / 1000);
  scope = input.scope;
  claims =
      input.claims
      ++ claim_if_any "project_id" input.project_id
      ++ claim_if_any "tenant_id" input.tenant_id
      ++ ("service", input.service) ∷ [];
}

unfoldable pub issue_internal_service_runtime_token :
    (sign : JwtPayload → String)
    → (jti : String) → (ttl_seconds now : ℕ) → InternalServiceClaims
    → RuntimeToken
issue_internal_service_runtime_token sign jti ttl_seconds now input =
    let expires_at = now + ttl_seconds * 1000 in
    record {
      access_token = sign (payload_of jti expires_at input);
      expires_at = expires_at;
      refresh_after = now + ttl_seconds * 8 / 10 * 1000;
    }

pub record VerifiedInternalServiceJwtClaims : Type 0 where
  pub subject : String
  pub audience : String
  pub service : String
  pub jti : String
  pub expires_at : ℕ
  pub tenant_id : Option String
  pub project_id : Option String
  pub scope : List String
  pub claims : List (String × String)

-- the claims that have to be there
abbrev pub claims_of : JwtPayload → Option VerifiedInternalServiceJwtClaims
claims_of p = do
  subject ← p.sub
  service ← lookup "service" p.claims
  jti ← p.jti
  exp ← p.exp
  some (record {
    subject = subject;
    audience = p.aud;
    service = service;
    jti = jti;
    expires_at = exp * 1000;
    tenant_id = lookup "tenant_id" p.claims;
    project_id = lookup "project_id" p.claims;
    scope = p.scope;
    claims = p.claims;
  })

unfoldable pub parse_tenant_scope : Option String → String
parse_tenant_scope none = "owner_only"
parse_tenant_scope (some value) = if str_eq value "all_tenants" then "all_tenants" else "owner_only"

-- of the result the fields that the interceptor puts into the context
abbrev pub proxy_claims : VerifiedInternalServiceJwtClaims → Option VerifiedProxyContext
proxy_claims c = do
  proxy_id ← lookup "proxy_id" c.claims
  tenant_id ← c.tenant_id
  if str_eq c.service "proxy"
      then some (record {
        proxy_id = proxy_id;
        tenant_id = tenant_id;
        tenant_scope = some (parse_tenant_scope (lookup "tenant_scope" c.claims));
      })
      else none

module _
    (jwt_verify : (issuer audience : String)
      → (now : ℕ) → (token : String) → Option JwtPayload) where
  unfoldable pub verify_internal_service_runtime_token :
      (now : ℕ) → (token audience : String) → Option VerifiedInternalServiceJwtClaims
  verify_internal_service_runtime_token now token audience = do
    p ← jwt_verify "customs-control-plane" audience now token
    claims_of p

  unfoldable pub verify_proxy_runtime_token :
      (now : ℕ) → (token : String) → Option VerifiedProxyContext
  verify_proxy_runtime_token now token = do
    c ← verify_internal_service_runtime_token now token "customs-proxy-rpc"
    proxy_claims c

abbrev pub proxy_input :
    (proxy_id tenant_id : String) → (tenant_scope : Option String) → InternalServiceClaims
proxy_input proxy_id tenant_id tenant_scope = record {
  service = "proxy";
  tenant_id = some tenant_id;
  project_id = none;
  scope = [];
  subject = proxy_id;
  audience = "customs-proxy-rpc";
  claims = ("proxy_id", proxy_id) ∷ ("tenant_scope", or_else tenant_scope "owner_only") ∷ [];
}

unfoldable pub issue_proxy_runtime_token :
    (sign : JwtPayload → String)
    → (jti : String) → (ttl_seconds now : ℕ) → (proxy_id tenant_id : String)
    → (tenant_scope : Option String) → RuntimeToken
issue_proxy_runtime_token sign jti ttl_seconds now proxy_id tenant_id tenant_scope =
    issue_internal_service_runtime_token sign jti ttl_seconds now
      (proxy_input proxy_id tenant_id tenant_scope)
