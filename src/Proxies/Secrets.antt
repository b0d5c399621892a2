-- ===== src/Proxies/Secrets.antt =====
-- Which secrets are taken for a token.
use dep_customs.Prelude.{
  ℕ, ◌<◌, String, ◌≡◌, ◌≢◌, ◌⊎◌, refl, ap, subst, true, List, Option, none, some, inl, inr, str_eq,
  eq_iff, arith, find, Bool-cases, Option-cases,
}
use dep_customs.Access.Projects.{ok_result}
use dep_customs.Proxies.{ProxyRow}
use dep_customs.Proxies.Auth.{
  ProxyCredentials, given, BootstrapError, hashes_match, previous_secret_still_valid, check_secret,
  has_proxy_id, Bootstrap, authenticated, unauthenticated, BootstrapAuth, succeeded, failed,
  BootstrapFailure, with_usable_status, require_bootstrap_authenticated_proxy,
  authenticate_bootstrap_proxy,
}
use dep_customs.Proxies.Jwt.{RuntimeToken}
use dep_customs.Proxies.Exchange.{Issuer, issue_for, exchanged, exchange_proxy_runtime_token}

-- The hash is that of the row's secret, or of the one before, for which time is left.
abbrev pub IsSecret : (now : ℕ) → (secret_hash : String) → ProxyRow → Type 0
IsSecret now secret_hash r =
    (r.secret_hash ≡ secret_hash)
    ⊎ ((r.secret_prev_hash ≡ some secret_hash)
        × ((at : ℕ) × (r.secret_prev_expires_at ≡ some at) × (now < at)))

pub record IsEntitled (hash_secret : String → String) (now : ℕ) (credentials : ProxyCredentials)
    (rows : List ProxyRow) (r : ProxyRow) : Type 0 where
  pub secret : String
  pub sent : given credentials.proxy_secret ≡ some secret
  pub proxy_id : String
  pub named : given credentials.proxy_id ≡ some proxy_id
  pub found : find (has_proxy_id proxy_id) rows ≡ some r
  pub matches : IsSecret now (hash_secret secret) r
  pub enabled : r.status ≢ "disabled"
  pub kept : r.status ≢ "revoked"

hashes_match-eq : (o : Option String) (h : String) → hashes_match o h ≡ true → o ≡ some h
unfolding hashes_match
hashes_match-eq none h e = cc e
hashes_match-eq (some x) h e = ap some (ground (arith, eq_iff x h, e))

previous-IsSecret :
    (now : ℕ) (h : String) (r : ProxyRow)
    → previous_secret_still_valid now h r ≡ true
    → IsSecret now h r
unfolding previous_secret_still_valid
previous-IsSecret now h r e = elim (Option-cases r.secret_prev_expires_at) [
  | inl q ↦ let k = rw q at e in absurd (ground (arith, k))
  | inr (at, q) ↦
      let k = rw q at e in
      inr (hashes_match-eq r.secret_prev_hash h (ground (arith, k)), (at, q, ground (arith, k)))
]

check_secret-IsSecret :
    (now : ℕ) (h : String) (o : Option ProxyRow) (r : ProxyRow)
    → check_secret now h o ≡ authenticated r
    → (o ≡ some r) × IsSecret now h r
unfolding check_secret
check_secret-IsSecret now h none r e = cc e
check_secret-IsSecret now h (some x) r e = elim (Bool-cases (hashes_match (some x.secret_hash) h)) [
  | inl m ↦
      let k : authenticated x ≡ authenticated r = rw m at e in
      let same : x ≡ r = cc k in
      (
        ap some same,
        subst (IsSecret now h) same
            (inl (let q = hashes_match-eq (some x.secret_hash) h m in cc q)),
      )
  | inr m ↦ elim (Bool-cases (previous_secret_still_valid now h x)) [
    | inl p ↦
        let k : authenticated x ≡ authenticated r = rw (m, p) at e in
        let same : x ≡ r = cc k in
        (ap some same, subst (IsSecret now h) same (previous-IsSecret now h x p))
    | inr p ↦ let k = rw (m, p) at e in cc k
  ]
]

with_usable_status-usable :
    (x r : ProxyRow)
    → with_usable_status x ≡ succeeded r
    → (x ≡ r) × (x.status ≢ "disabled") × (x.status ≢ "revoked")
unfolding with_usable_status
with_usable_status-usable x r e = elim (Bool-cases (str_eq x.status "disabled")) [
  | inl d ↦ let k = rw d at e in cc k
  | inr d ↦ elim (Bool-cases (str_eq x.status "revoked")) [
    | inl v ↦ let k = rw (d, v) at e in cc k
    | inr v ↦
        let k : succeeded x ≡ succeeded r = rw (d, v) at e in
        (
          cc k,
          (λ q. ground (arith, eq_iff x.status "disabled")),
          (λ q. ground (arith, eq_iff x.status "revoked")),
        )
  ]
]

require-IsSecret :
    (hash_secret : String → String) (now : ℕ) (credentials : ProxyCredentials)
    (rows : List ProxyRow) (r : ProxyRow)
    → require_bootstrap_authenticated_proxy hash_secret now credentials rows ≡ authenticated r
    → (secret : String) × (given credentials.proxy_secret ≡ some secret)
      × ((proxy_id : String) × (given credentials.proxy_id ≡ some proxy_id)
          × (find (has_proxy_id proxy_id) rows ≡ some r)
          × IsSecret now (hash_secret secret) r)
unfolding require_bootstrap_authenticated_proxy
require-IsSecret hash_secret now credentials rows r h =
    elim (Option-cases (given credentials.proxy_secret)) [
      | inl e ↦ let k = rw (e, require_bootstrap_authenticated_proxy) at h in cc k
      | inr (secret, e) ↦ elim (Option-cases (given credentials.proxy_id)) [
        | inl q ↦ let k = rw (e, q, require_bootstrap_authenticated_proxy) at h in cc k
        | inr (proxy_id, q) ↦
            let k : check_secret now (hash_secret secret) (find (has_proxy_id proxy_id) rows)
                ≡ authenticated r =
              rw (e, q, require_bootstrap_authenticated_proxy) at h in
            let (f, m) =
              check_secret-IsSecret now (hash_secret secret) (find (has_proxy_id proxy_id) rows) r
                k in
            (secret, e, (proxy_id, q, f, m))
      ]
    ]

Bootstrap-cases :
    (b : Bootstrap)
    → ((r : ProxyRow) × (b ≡ authenticated r)) ⊎ ((e : BootstrapError) × (b ≡ unauthenticated e))
Bootstrap-cases (authenticated r) = inl (r, refl)
Bootstrap-cases (unauthenticated e) = inr (e, refl)

authenticate-IsEntitled :
    (hash_secret : String → String) (now : ℕ) (credentials : ProxyCredentials)
    (rows : List ProxyRow) (r : ProxyRow)
    → authenticate_bootstrap_proxy hash_secret now credentials rows ≡ succeeded r
    → IsEntitled hash_secret now credentials rows r
unfolding authenticate_bootstrap_proxy
authenticate-IsEntitled hash_secret now credentials rows r h =
    elim (Bootstrap-cases
      (require_bootstrap_authenticated_proxy hash_secret now credentials rows)) [
        | inr (e, b) ↦ let k = rw (b, authenticate_bootstrap_proxy) at h in cc k
        | inl (x, b) ↦
            let k : with_usable_status x ≡ succeeded r =
              rw (b, authenticate_bootstrap_proxy) at h in
            let (same, enabled, kept) = with_usable_status-usable x r k in
            let (secret, sent, (proxy_id, named, found, matches)) =
              require-IsSecret hash_secret now credentials rows x b in
            subst (IsEntitled hash_secret now credentials rows) same (record {
              secret = secret;
              sent = sent;
              proxy_id = proxy_id;
              named = named;
              found = found;
              matches = matches;
              enabled = enabled;
              kept = kept;
            })
      ]

BootstrapAuth-cases :
    (b : BootstrapAuth)
    → ((r : ProxyRow) × (b ≡ succeeded r)) ⊎ ((f : BootstrapFailure) × (b ≡ failed f))
BootstrapAuth-cases (succeeded r) = inl (r, refl)
BootstrapAuth-cases (failed f) = inr (f, refl)

-- Whoever gets a token named a proxy of the table that is neither disabled nor revoked, and sent its
-- secret, or the one before the last rotation when its hour was not over; the token is issued for
-- that row.
pub exchange_proxy_runtime_token-IsEntitled :
    (hash_secret : String → String) (issuer : Issuer) (now : ℕ) (credentials : ProxyCredentials)
    (rows : List ProxyRow) (token : RuntimeToken)
    → (exchange_proxy_runtime_token hash_secret issuer now credentials rows).answer
      ≡ ok_result token
    → (r : ProxyRow) × (token ≡ issue_for issuer now r)
      × IsEntitled hash_secret now credentials rows r
unfolding exchange_proxy_runtime_token exchanged
exchange_proxy_runtime_token-IsEntitled hash_secret issuer now credentials rows token h =
    elim (BootstrapAuth-cases (authenticate_bootstrap_proxy hash_secret now credentials rows)) [
      | inr (f, b) ↦ let k = rw (b, exchange_proxy_runtime_token) at h in cc k
      | inl (r, b) ↦
          let k : ok_result (issue_for issuer now r) ≡ ok_result token =
            rw (b, exchange_proxy_runtime_token) at h in
          (r, cc k, authenticate-IsEntitled hash_secret now credentials rows r b)
    ]
