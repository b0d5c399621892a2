-- ===== src/Proxies/Rotation.antt =====
-- What a rotation, and a change of status, does to the secrets that are taken.
use dep_customs.Prelude.{
  ℕ, ◌+◌, ◌<◌, String, ◌≡◌, ◌≢◌, ◌⊎◌, ◌↔◌, refl, sym, ap, ◌∙◌, Bool, true, ◌||◌, List, Option, some,
  inl, inr, str_eq, eq_iff, arith, find, Bool-cases,
}
use dep_customs.Access.Projects.{ok_result}
use dep_customs.Proxies.{
  ProxyRow, LifecycleInput, update_proxies, with_status, with_secret, disable_proxy, revoke_proxy,
  rotate_proxy_secret,
}
use dep_customs.Proxies.Auth.{
  ProxyCredentials, given, hashes_match, previous_secret_still_valid, has_proxy_id, succeeded,
  authenticate_bootstrap_proxy,
}
use dep_customs.Proxies.Jwt.{RuntimeToken}
use dep_customs.Proxies.Exchange.{Issuer, exchange_proxy_runtime_token}
use dep_customs.Proxies.Secrets.{IsEntitled, exchange_proxy_runtime_token-IsEntitled}
use dep_customs.Proxies.Found.{find-updated, authenticate-taken, authenticate-refused}

-- the secret is the new one, or the old one in its last hour
abbrev pub IsTaken :
    (new_hash old_hash : String) → (rotated later : ℕ) → (secret_hash : String) → Type 0
IsTaken new_hash old_hash rotated later secret_hash =
    (secret_hash ≡ new_hash) ⊎ ((secret_hash ≡ old_hash) × (later < rotated + 3600000))

module _ (new_hash : String) (r : ProxyRow) (now later : ℕ) (h : String) where
  abbrev tested : Bool
  tested =
      hashes_match (some new_hash) h
      || previous_secret_still_valid later h (with_secret now new_hash r)

  tested→IsTaken : tested ≡ true → IsTaken new_hash r.secret_hash now later h
  unfolding hashes_match previous_secret_still_valid
  tested→IsTaken e = elim (Bool-cases (str_eq new_hash h)) [
    | inl q ↦ inl (sym ((eq_iff new_hash h).0 q))
    | inr q ↦ inr (ground (arith, e, q, eq_iff r.secret_hash h), ground (arith, e, q))
  ]

  IsTaken→tested :
      new_hash ≢ ""
      → r.secret_hash ≢ ""
      → IsTaken new_hash r.secret_hash now later h
      → tested ≡ true
  unfolding hashes_match previous_secret_still_valid
  IsTaken→tested a b (inl q) = ground (arith, eq_iff new_hash h, eq_iff new_hash "")
  IsTaken→tested a b (inr (q, lt)) =
      ground (arith, eq_iff r.secret_hash h, eq_iff r.secret_hash "", lt)

-- After a rotation of the secret of a proxy that is neither disabled nor revoked, a secret
-- authenticates the proxy just if it has the hash of the new secret, or that of the one before the
-- rotation and less than an hour has passed.
pub rotate_proxy_secret-IsTaken :
    (hash_secret : String → String) (raw_secret secret : String) (now later : ℕ)
    (input : LifecycleInput) (ip : Option String) (rows : List ProxyRow) (r : ProxyRow)
    → secret ≢ ""
    → input.proxy_id ≢ ""
    → find (has_proxy_id input.proxy_id) rows ≡ some r
    → r.tenant_id ≡ input.tenant_id
    → r.status ≢ "disabled"
    → r.status ≢ "revoked"
    → hash_secret raw_secret ≢ ""
    → r.secret_hash ≢ ""
    → (authenticate_bootstrap_proxy hash_secret later
          (record { proxy_secret = some secret; proxy_id = some input.proxy_id; proxy_ip = ip })
          (rotate_proxy_secret hash_secret raw_secret now input rows).rows
        ≡ succeeded (with_secret now (hash_secret raw_secret) r))
      ↔ IsTaken (hash_secret raw_secret) r.secret_hash now later (hash_secret secret)
unfolding rotate_proxy_secret
rotate_proxy_secret-IsTaken hash_secret raw_secret secret now later input ip rows r sent named found
      own d v a b =
    let f = with_secret now (hash_secret raw_secret) in
    let rows' = (update_proxies input f "secret_rotated" rows).rows in
    let found' = find-updated input f (λ _. refl) "secret_rotated" rows r found own in
    let h = hash_secret secret in
    (
      (λ e. elim (Bool-cases (tested (hash_secret raw_secret) r now later h)) [
        | inl t ↦ tested→IsTaken (hash_secret raw_secret) r now later h t
        | inr t ↦
            let (_, refused, _) =
              authenticate-refused hash_secret later secret input.proxy_id ip rows' (f r) sent named
                found' t in
            absurd (cc (e, refused))
      ]),
      (λ t.
          authenticate-taken hash_secret later secret input.proxy_id ip rows' (f r) sent named
            found' (IsTaken→tested (hash_secret raw_secret) r now later h a b t) d v),
    )

given-some : (s t : String) → given (some s) ≡ some t → t ≡ s
given-some s t h = elim (Bool-cases (str_eq s "")) [
  | inl e ↦ let k = rw e at h in cc k
  | inr e ↦ let k : some s ≡ some t = rw e at h in cc k
]

status-entitled :
    (hash_secret : String → String) (now later : ℕ) (input : LifecycleInput)
    (status event_type : String) (credentials : ProxyCredentials) (rows : List ProxyRow)
    (r x : ProxyRow)
    → credentials.proxy_id ≡ some input.proxy_id
    → find (has_proxy_id input.proxy_id) rows ≡ some r
    → r.tenant_id ≡ input.tenant_id
    → IsEntitled hash_secret later credentials
        (update_proxies input (with_status now status) event_type rows).rows
        x
    → x.status ≡ status
status-entitled hash_secret now later input status event_type credentials rows r x named found own
      entitled =
    let f = with_status now status in
    let rows' = (update_proxies input f event_type rows).rows in
    let same : entitled.proxy_id ≡ input.proxy_id =
      given-some input.proxy_id entitled.proxy_id (ap given (sym named) ∙ entitled.named) in
    let found' = find-updated input f (λ _. refl) event_type rows r found own in
    let q : some x ≡ some (f r) =
      sym entitled.found ∙ ap (λ p. find (has_proxy_id p) rows') same ∙ found' in
    let k : x ≡ f r = cc q in ap (λ (t : ProxyRow). t.status) k

-- A proxy that has been disabled or revoked gets no token, whatever it sends and whenever it asks, as
-- long as its row stays so.
pub exchange-stopped :
    (hash_secret : String → String) (issuer : Issuer) (now later : ℕ) (input : LifecycleInput)
    (credentials : ProxyCredentials) (rows : List ProxyRow) (r : ProxyRow) (token : RuntimeToken)
    → credentials.proxy_id ≡ some input.proxy_id
    → find (has_proxy_id input.proxy_id) rows ≡ some r
    → r.tenant_id ≡ input.tenant_id
    → ((exchange_proxy_runtime_token hash_secret issuer later credentials
          (disable_proxy now input rows).rows).answer
        ≢ ok_result token)
      × ((exchange_proxy_runtime_token hash_secret issuer later credentials
            (revoke_proxy now input rows).rows).answer
          ≢ ok_result token)
unfolding disable_proxy revoke_proxy
exchange-stopped hash_secret issuer now later input credentials rows r token named found own = (
  (λ e.
      let (x, _, entitled) =
        exchange_proxy_runtime_token-IsEntitled hash_secret issuer later credentials
          (disable_proxy now input rows).rows token e in
      entitled.enabled (
        status-entitled hash_secret now later input "disabled" "proxy_disabled" credentials rows r x
          named found own entitled)),
  (λ e.
      let (x, _, entitled) =
        exchange_proxy_runtime_token-IsEntitled hash_secret issuer later credentials
          (revoke_proxy now input rows).rows token e in
      entitled.kept (
        status-entitled hash_secret now later input "revoked" "proxy_revoked" credentials rows r x
          named found own entitled)),
)
