-- ===== src/Proxies/Updates.antt =====
-- What a request does to the rows of proxies.
use dep_customs.Prelude.{
  String, ℕ, ◌≡◌, ◌≢◌, ◌⊎◌, refl, Bool, true, List, [], ◌∷◌, ◌++◌, map, none, inl, inr, str_eq,
  eq_iff, arith, Bool-cases,
}
use dep_customs.Access.Projects.{HttpResult-cases, ok_result}
use dep_customs.Tenants.Guards.{Caller, require_tenant_capability, has_tenant_capability}
use dep_customs.Tenants.Giving.{bind_ok, require_ok}
use dep_customs.Proxies.{
  ProxyRow, update_row, update_proxies, with_status, with_secret, with_scope, disable_proxy,
  enable_proxy, revoke_proxy, rotate_proxy_secret, create_proxy, generate_proxy_secret,
  update_proxy_tenant_scope,
}
use dep_customs.Proxies.Routes.{
  ProxyRequest, create_request, disable_request, enable_request, revoke_request, scope_request,
  rotate_request, write_guard, scope_guard, status_done, lifecycle_input, require_platform, is_name,
  is_scope, handle_proxy_request,
}
use dep_customs.Proxies.Found.{update_proxies-eq}

-- a scope that the caller may give
abbrev pub MayShare : Caller → (tenant_scope : String) → Type 0
MayShare caller tenant_scope =
    (tenant_scope ≢ "all_tenants")
    ⊎ (has_tenant_capability caller "platform.proxies.set_all_tenants" ≡ true)

-- what an update of a row keeps
abbrev pub IsMild : Caller → (ProxyRow → ProxyRow) → Type 0
IsMild caller f =
    (r : ProxyRow)
    → ((f r).id ≡ r.id)
      × ((f r).proxy_id ≡ r.proxy_id)
      × ((f r).tenant_id ≡ r.tenant_id)
      × (((f r).tenant_scope ≡ r.tenant_scope) ⊎ MayShare caller (f r).tenant_scope)

pub data ProxyEffect (caller : Caller) (rows : List ProxyRow) : List ProxyRow → Type 0 where
  kept : (next : List ProxyRow) → next ≡ rows → ProxyEffect caller rows next
  added :
      (next : List ProxyRow) (r : ProxyRow)
      → next ≡ rows ++ r ∷ []
      → r.tenant_id ≡ caller.tenant_id
      → r.tenant_scope ≡ "owner_only"
      → ProxyEffect caller rows next
  updated :
      (next : List ProxyRow) (proxy_id : String) (f : ProxyRow → ProxyRow)
      → next ≡ map (update_row caller.tenant_id proxy_id f) rows
      → IsMild caller f
      → ProxyEffect caller rows next

module _ (caller : Caller) (is_uuid : String → Bool) (hash_secret : String → String) (now : ℕ) where
  scope_guard-MayShare :
      (proxy_id tenant_scope id : String)
      → scope_guard is_uuid caller proxy_id tenant_scope ≡ ok_result id
      → MayShare caller tenant_scope
  unfolding scope_guard require_tenant_capability
  scope_guard-MayShare proxy_id tenant_scope id h =
      elim (Bool-cases (str_eq tenant_scope "all_tenants")) [
        | inr e ↦ inl (λ q. ground (arith, eq_iff tenant_scope "all_tenants"))
        | inl e ↦
            let (a, _, k) = bind_ok (write_guard is_uuid caller proxy_id) _ id h in
            let (x, m, _) =
              bind_ok (require_platform caller tenant_scope) (λ _. ok_result a) id k in
            let z = rw e at m in
            inr (require_ok (has_tenant_capability caller "platform.proxies.set_all_tenants") _ x z)
      ]

  status_done-Effect :
      (proxy_id status event_type : String) (rows : List ProxyRow)
      → ProxyEffect caller rows
          (status_done is_uuid caller proxy_id
            (λ input. update_proxies input (with_status now status) event_type)
            rows).0
  status_done-Effect proxy_id status event_type rows =
      elim (HttpResult-cases (write_guard is_uuid caller proxy_id)) [
        | inl (e, g) ↦ kept _ (rw (g, status_done) refl)
        | inr (id, g) ↦
            updated _ id (with_status now status)
              (rw (g, status_done)
                (update_proxies-eq (lifecycle_input caller id) (with_status now status) event_type
                  rows))
              (λ r. (refl, refl, refl, inl refl))
      ]

  -- What a request does to the rows.
  pub handle_proxy_request-Effect :
      (request : ProxyRequest) (rows : List ProxyRow)
      → ProxyEffect caller rows (handle_proxy_request is_uuid hash_secret now caller request rows).0
  unfolding handle_proxy_request disable_proxy enable_proxy revoke_proxy rotate_proxy_secret
      create_proxy update_proxy_tenant_scope
  handle_proxy_request-Effect (create_request name id proxy_id random_hex) rows =
      elim (Bool-cases (is_name name)) [
        | inr e ↦ kept _ (rw e refl)
        | inl e ↦
            elim (HttpResult-cases (
              require_tenant_capability caller "proxies.write"
                "You do not have access to manage proxies")) [
                  | inl (x, g) ↦ kept _ (rw (e, g, handle_proxy_request) refl)
                  | inr (_, g) ↦
                      added _
                        (record {
                          id = id;
                          proxy_id = proxy_id;
                          tenant_id = caller.tenant_id;
                          name = name;
                          status = "active";
                          tenant_scope = "owner_only";
                          secret_hash = hash_secret (generate_proxy_secret random_hex);
                          secret_prev_hash = none;
                          secret_prev_expires_at = none;
                          disabled_at = none;
                          secret_rotated_at = none;
                          last_seen_at = none;
                          created_at = now;
                          updated_at = now;
                        })
                        (rw (e, g, handle_proxy_request) refl) refl refl
                ]
      ]
  handle_proxy_request-Effect (disable_request proxy_id) rows =
      status_done-Effect proxy_id "disabled" "proxy_disabled" rows
  handle_proxy_request-Effect (enable_request proxy_id) rows =
      status_done-Effect proxy_id "active" "proxy_enabled" rows
  handle_proxy_request-Effect (revoke_request proxy_id) rows =
      status_done-Effect proxy_id "revoked" "proxy_revoked" rows
  handle_proxy_request-Effect (scope_request proxy_id tenant_scope) rows =
      elim (Bool-cases (is_scope tenant_scope)) [
        | inr e ↦ kept _ (rw e refl)
        | inl e ↦ elim (HttpResult-cases (scope_guard is_uuid caller proxy_id tenant_scope)) [
          | inl (x, g) ↦ kept _ (rw (e, g, handle_proxy_request) refl)
          | inr (id, g) ↦
              updated _ id (with_scope now tenant_scope) (rw (e, g, handle_proxy_request) refl)
                (λ r. (refl, refl, refl, inr (scope_guard-MayShare proxy_id tenant_scope id g)))
        ]
      ]
  handle_proxy_request-Effect (rotate_request proxy_id random_hex) rows =
      let f = with_secret now (hash_secret (generate_proxy_secret random_hex)) in
      elim (HttpResult-cases (write_guard is_uuid caller proxy_id)) [
        | inl (e, g) ↦ kept _ (rw (g, handle_proxy_request) refl)
        | inr (id, g) ↦
            updated _ id f
              (rw (g, handle_proxy_request)
                (update_proxies-eq (lifecycle_input caller id) f "secret_rotated" rows))
              (λ r. (refl, refl, refl, inl refl))
      ]
