-- ===== src/Proxies/Found.antt =====
-- The row of a proxy after an update, and whether a secret authenticates the row that is found.
use dep_customs.Prelude.{
  ℕ, String, ◌≡◌, ◌≢◌, refl, ap, ◌∙◌, true, false, ◌||◌, List, [], ◌∷◌, map, Option, some, inl, inr,
  str_eq, eq_iff, arith, find, find-In, Bool-cases, Option-cases,
}
use dep_customs.Proxies.{ProxyRow, LifecycleInput, is_proxy, update_row, update_proxies}
use dep_customs.Proxies.Auth.{
  ProxyCredentials, hashes_match, previous_secret_still_valid, check_secret, has_proxy_id,
  authenticated, unauthenticated, invalid_proxy_secret, failure_of, audit_found, succeeded, failed,
  BootstrapFailure, with_usable_status, require_bootstrap_authenticated_proxy,
  authenticate_bootstrap_proxy,
}

pub update_proxies-eq :
    (input : LifecycleInput) (f : ProxyRow → ProxyRow) (event_type : String) (rows : List ProxyRow)
    → (update_proxies input f event_type rows).rows
      ≡ map (update_row input.tenant_id input.proxy_id f) rows
update_proxies-eq input f event_type rows =
    elim (Option-cases (find (is_proxy input.tenant_id input.proxy_id) rows)) [
      | inl e ↦ rw (e, update_proxies) refl
      | inr (r, e) ↦ rw (e, update_proxies) refl
    ]

module _ (input : LifecycleInput) (f : ProxyRow → ProxyRow)
    (keeps : (r : ProxyRow) → (f r).proxy_id ≡ r.proxy_id) where
  update_row-has_proxy_id :
      (p : String) (r : ProxyRow)
      → has_proxy_id p (update_row input.tenant_id input.proxy_id f r) ≡ has_proxy_id p r
  update_row-has_proxy_id p r = elim (Bool-cases (is_proxy input.tenant_id input.proxy_id r)) [
    | inl e ↦ rw (e, keeps r) refl
    | inr e ↦ rw e refl
  ]

  find-update :
      (p : String) (rows : List ProxyRow) (r : ProxyRow)
      → find (has_proxy_id p) rows ≡ some r
      → find (has_proxy_id p) (map (update_row input.tenant_id input.proxy_id f) rows)
        ≡ some (update_row input.tenant_id input.proxy_id f r)
  find-update p [] r h = cc h
  find-update p (x ∷ rows) r h = elim (Bool-cases (has_proxy_id p x)) [
    | inl e ↦
        let k : some x ≡ some r = rw e at h in
        let same : x ≡ r = cc k in rw (update_row-has_proxy_id p x, e) (rw same refl)
    | inr e ↦ rw (update_row-has_proxy_id p x, e) (find-update p rows r (rw e at h))
  ]

  -- the row of the proxy, after an update
  pub find-updated :
      (event_type : String) (rows : List ProxyRow) (r : ProxyRow)
      → find (has_proxy_id input.proxy_id) rows ≡ some r
      → r.tenant_id ≡ input.tenant_id
      → find (has_proxy_id input.proxy_id) (update_proxies input f event_type rows).rows
        ≡ some (f r)
  unfolding is_proxy
  find-updated event_type rows r h own =
      let (_, named) = find-In (has_proxy_id input.proxy_id) r rows h in
      let e : is_proxy input.tenant_id input.proxy_id r ≡ true =
        ground (arith, named, own, eq_iff r.tenant_id input.tenant_id) in
      ap (find (has_proxy_id input.proxy_id)) (update_proxies-eq input f event_type rows)
      ∙ find-update input.proxy_id rows r h
      ∙ rw e refl

module _ (hash_secret : String → String) (now : ℕ) (secret proxy_id : String) (ip : Option String)
    (rows : List ProxyRow) (r : ProxyRow) (sent : secret ≢ "") (named : proxy_id ≢ "")
    (found : find (has_proxy_id proxy_id) rows ≡ some r) where
  abbrev credentials : ProxyCredentials
  credentials = record { proxy_secret = some secret; proxy_id = some proxy_id; proxy_ip = ip }

  require-found :
      require_bootstrap_authenticated_proxy hash_secret now credentials rows
      ≡ check_secret now (hash_secret secret) (some r)
  unfolding require_bootstrap_authenticated_proxy
  require-found =
      let a : str_eq secret "" ≡ false = ground (arith, eq_iff secret "", sent) in
      let b : str_eq proxy_id "" ≡ false = ground (arith, eq_iff proxy_id "", named) in
      rw (require_bootstrap_authenticated_proxy, a, b, found) refl

  pub authenticate-taken :
      (hashes_match (some r.secret_hash) (hash_secret secret)
          || previous_secret_still_valid now (hash_secret secret) r)
        ≡ true
      → r.status ≢ "disabled"
      → r.status ≢ "revoked"
      → authenticate_bootstrap_proxy hash_secret now credentials rows ≡ succeeded r
  unfolding authenticate_bootstrap_proxy check_secret with_usable_status
  authenticate-taken m d v =
      let check : check_secret now (hash_secret secret) (some r) ≡ authenticated r =
        elim (Bool-cases (hashes_match (some r.secret_hash) (hash_secret secret))) [
          | inl a ↦ rw (a, check_secret) refl
          | inr a ↦
              let b : previous_secret_still_valid now (hash_secret secret) r ≡ true = rw a at m in
              rw (a, b, check_secret) refl
        ] in
      let d' : str_eq r.status "disabled" ≡ false = ground (arith, eq_iff r.status "disabled", d) in
      let v' : str_eq r.status "revoked" ≡ false = ground (arith, eq_iff r.status "revoked", v) in
      rw (authenticate_bootstrap_proxy, require-found, check, with_usable_status, d', v') refl

  pub authenticate-refused :
      (hashes_match (some r.secret_hash) (hash_secret secret)
          || previous_secret_still_valid now (hash_secret secret) r)
        ≡ false
      → (f : BootstrapFailure) × (authenticate_bootstrap_proxy hash_secret now credentials rows
          ≡ failed f)
        × (f.code ≡ "INVALID_PROXY_SECRET")
  unfolding authenticate_bootstrap_proxy check_secret
  authenticate-refused m =
      let a : hashes_match (some r.secret_hash) (hash_secret secret) ≡ false = ground (arith, m) in
      let b : previous_secret_still_valid now (hash_secret secret) r ≡ false = ground (arith, m) in
      let check : check_secret now (hash_secret secret) (some r)
          ≡ unauthenticated invalid_proxy_secret =
        rw (a, b, check_secret) refl in
      (
        failure_of invalid_proxy_secret (audit_found (some proxy_id) rows),
        (let named' : str_eq proxy_id "" ≡ false = ground (arith, eq_iff proxy_id "", named) in
            rw (authenticate_bootstrap_proxy, require-found, check, named') refl),
        refl,
      )
