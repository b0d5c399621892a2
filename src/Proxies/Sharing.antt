-- ===== src/Proxies/Sharing.antt =====
-- Who makes a proxy act for all tenants, and whose proxies a request changes.
use dep_customs.Prelude.{
  String, ℕ, ◌≡◌, ◌⊎◌, refl, sym, ap, subst, ◌∙◌, Bool, true, false, not, List, [], ◌∷◌, ◌++◌, map,
  inl, inr, str_eq, eq_iff, arith, filter, In, In-append, In-map, Bool-cases, if◌then◌else◌,
}
use dep_customs.Tenants.Guards.{Caller, has_tenant_capability}
use dep_customs.Proxies.{ProxyRow, is_proxy, update_row}
use dep_customs.Proxies.Routes.{ProxyRequest, handle_proxy_request}
use dep_customs.Proxies.Updates.{
  IsMild, ProxyEffect, kept, added, updated, handle_proxy_request-Effect,
}

abbrev pub is_foreign : Caller → ProxyRow → Bool
is_foreign caller r = not (str_eq r.tenant_id caller.tenant_id)

-- Two rows of the same proxy, of the same tenant.
abbrev pub IsSameProxy : (r s : ProxyRow) → Type 0
IsSameProxy r s = (r.id ≡ s.id) × (r.proxy_id ≡ s.proxy_id) × (r.tenant_id ≡ s.tenant_id)

module _ (caller : Caller) (proxy_id : String) (f : ProxyRow → ProxyRow)
    (mild : IsMild caller f) where
  update_row-cases :
      (r : ProxyRow)
      → (update_row caller.tenant_id proxy_id f r ≡ r)
        ⊎ ((update_row caller.tenant_id proxy_id f r ≡ f r) × (r.tenant_id ≡ caller.tenant_id))
  unfolding is_proxy
  update_row-cases r = elim (Bool-cases (is_proxy caller.tenant_id proxy_id r)) [
    | inr e ↦ inl (rw e refl)
    | inl e ↦ inr (rw e refl, ground (arith, e, eq_iff r.tenant_id caller.tenant_id))
  ]

  filter-update :
      (rows : List ProxyRow)
      → filter (is_foreign caller) (map (update_row caller.tenant_id proxy_id f) rows)
        ≡ filter (is_foreign caller) rows
  filter-update [] = refl
  filter-update (r ∷ rows) = elim (update_row-cases r) [
    | inl e ↦
        rw e (ap (λ rest. if is_foreign caller r then r ∷ rest else rest) (filter-update rows))
    | inr (e, own) ↦
        let a : is_foreign caller r ≡ false =
          ground (arith, eq_iff r.tenant_id caller.tenant_id, own) in
        let b : is_foreign caller (f r) ≡ false =
          ground (arith, eq_iff (f r).tenant_id caller.tenant_id, (mild r).2 ∙ own) in
        rw (e, a, b) (filter-update rows)
  ]

  In-update :
      (s : ProxyRow) (rows : List ProxyRow)
      → In s (map (update_row caller.tenant_id proxy_id f) rows)
      → s.tenant_scope ≡ "all_tenants"
      → ((r : ProxyRow) × In r rows × IsSameProxy r s × (r.tenant_scope ≡ "all_tenants"))
        ⊎ ((s.tenant_id ≡ caller.tenant_id)
            × (has_tenant_capability caller "platform.proxies.set_all_tenants" ≡ true))
  In-update s rows i h =
      let (r, j, e) = In-map (update_row caller.tenant_id proxy_id f) s rows i in
      elim (update_row-cases r) [
        | inl k ↦
            let q : s ≡ r = e ∙ k in
            inl (
              r,
              j,
              subst (λ t. IsSameProxy r t) (sym q) (refl, refl, refl),
              ap (λ (t : ProxyRow). t.tenant_scope) (sym q) ∙ h,
            )
        | inr (k, own) ↦
            let q : s ≡ f r = e ∙ k in
            let (id, proxy, tenant, scope) = mild r in
            let scoped : (f r).tenant_scope ≡ "all_tenants" =
              ap (λ (t : ProxyRow). t.tenant_scope) (sym q) ∙ h in
            let there : s.tenant_id ≡ r.tenant_id = ap (λ (t : ProxyRow). t.tenant_id) q ∙ tenant in
            let kept : IsSameProxy r s =
              subst (λ t. IsSameProxy r t) (sym q) (sym id, sym proxy, sym tenant) in
            elim scope [
              | inl same ↦ inl (r, j, kept, sym same ∙ scoped)
              | inr (inl not_all) ↦ absurd (not_all scoped)
              | inr (inr may) ↦ inr (there ∙ own, may)
            ]
      ]

abbrev pub IsConfined : Caller → (rows next : List ProxyRow) → Type 0
IsConfined caller rows next =
    (filter (is_foreign caller) next ≡ filter (is_foreign caller) rows)
    × ((s : ProxyRow)
        → In s next
        → s.tenant_scope ≡ "all_tenants"
        → ((r : ProxyRow) × In r rows × IsSameProxy r s × (r.tenant_scope ≡ "all_tenants"))
          ⊎ ((s.tenant_id ≡ caller.tenant_id)
              × (has_tenant_capability caller "platform.proxies.set_all_tenants" ≡ true)))

foreign_append :
    (caller : Caller) (rows : List ProxyRow) (r : ProxyRow)
    → r.tenant_id ≡ caller.tenant_id
    → filter (is_foreign caller) (rows ++ r ∷ []) ≡ filter (is_foreign caller) rows
foreign_append caller [] r own = ground (arith, eq_iff r.tenant_id caller.tenant_id)
foreign_append caller (x ∷ rows) r own = ground (arith, foreign_append caller rows r own)

Effect-IsConfined :
    (caller : Caller) (rows next : List ProxyRow)
    → ProxyEffect caller rows next
    → IsConfined caller rows next
Effect-IsConfined caller rows next (kept _ e) =
    (ap (filter (is_foreign caller)) e, (λ s i h. inl (s, subst (In s) e i, (refl, refl, refl), h)))
Effect-IsConfined caller rows next (added _ r e own scope) = (
  ap (filter (is_foreign caller)) e ∙ foreign_append caller rows r own,
  (λ s i h. elim (In-append s rows (r ∷ []) (subst (In s) e i)) [
    | inl j ↦ inl (s, j, (refl, refl, refl), h)
    | inr (inl q) ↦
        let k : "all_tenants" ≡ "owner_only" =
          sym h ∙ ap (λ (t : ProxyRow). t.tenant_scope) q ∙ scope in
        absurd (ground (arith, k, eq_iff "all_tenants" "owner_only"))
    | inr (inr z) ↦ absurd z
  ]),
)
Effect-IsConfined caller rows next (updated _ proxy_id f e mild) = (
  ap (filter (is_foreign caller)) e ∙ filter-update caller proxy_id f mild rows,
  (λ s i h. In-update caller proxy_id f mild s rows (subst (In s) e i) h),
)

-- A request leaves the proxies of every other tenant as they are. A proxy that acts for all tenants
-- after it did so before, as the same proxy of the same tenant, or it is the caller's and the caller
-- has the platform's capability to share proxies.
pub handle_proxy_request-IsConfined :
    (is_uuid : String → Bool) (hash_secret : String → String) (now : ℕ) (caller : Caller)
    (request : ProxyRequest) (rows : List ProxyRow)
    → IsConfined caller rows (handle_proxy_request is_uuid hash_secret now caller request rows).0
handle_proxy_request-IsConfined is_uuid hash_secret now caller request rows =
    Effect-IsConfined caller rows
      (handle_proxy_request is_uuid hash_secret now caller request rows).0
      (handle_proxy_request-Effect caller is_uuid hash_secret now request rows)
