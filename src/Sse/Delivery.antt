-- ===== src/Sse/Delivery.antt =====
-- That a client receives what it has subscribed to.
use dep_customs.Prelude.{
  ℕ, zero, suc, ◌<◌, String, ◌≡◌, refl, sym, subst, true, false, List, [], ◌∷◌, ◌++◌, some, inl,
  inr, arith, str_eq, eq_refl, length, any, In, filter-In, In-append_right, Option-cases,
}
use dep_customs.Sse.{
  SseClient, EventPayload, SubscriptionManager, set_at, update_at, ref_of, add_client, subscribe,
  client_should_receive, tenant_clients, publish,
}
use dep_customs.Sse.Isolation.{Reachable, Reachable-IsOwned, ref_of-In, tenant_clients-some}

-- No client of the tenant's set has the id.
abbrev pub IsNew : SseClient → SubscriptionManager → Type 0
IsNew c m = any (λ d. str_eq d.id c.id) (tenant_clients c.tenant_id m) ≡ false

add_client-In :
    (c : SseClient) (set : List SseClient)
    → any (λ d. str_eq d.id c.id) set ≡ false
    → In c (add_client c set)
add_client-In c set h = rw h (In-append_right c set (c ∷ []) (inl refl))

set_at-update_at :
    (ref : ℕ) (f : List SseClient → List SseClient) (sets : List (List SseClient))
    → ref < length sets
    → set_at ref (update_at ref f sets) ≡ f (set_at ref sets)
set_at-update_at ref f [] h = absurd (omega (arith, h))
set_at-update_at zero f (s ∷ sets) h = refl
set_at-update_at (suc ref) f (s ∷ sets) h = set_at-update_at ref f sets (omega (arith, h))

set_at-append :
    (sets : List (List SseClient)) (s : List SseClient) → set_at (length sets) (sets ++ s ∷ []) ≡ s
set_at-append [] s = refl
set_at-append (x ∷ sets) s = set_at-append sets s

first_ref :
    (t : String) (ref : ℕ) (clients : List (String × ℕ)) → ref_of t ((t, ref) ∷ clients) ≡ some ref
first_ref t ref clients = rw eq_refl refl

found-In :
    (c : SseClient) (ref : ℕ) (m : SubscriptionManager)
    → ref_of c.tenant_id m.clients ≡ some ref
    → In c (set_at ref m.sets)
    → In c (tenant_clients c.tenant_id m)
found-In c ref m e i = subst (λ set. In c set) (sym (tenant_clients-some c.tenant_id ref m e)) i

subscribed-In :
    (m : SubscriptionManager) (c : SseClient)
    → Reachable m
    → IsNew c m
    → In c (tenant_clients c.tenant_id (subscribe c m).0)
unfolding subscribe
subscribed-In m c r h = elim (Option-cases (ref_of c.tenant_id m.clients)) [
  | inl e ↦
      rw (e, subscribe)
        (found-In c (length m.sets)
          (record {
            sets = m.sets ++ add_client c [] ∷ [];
            clients = (c.tenant_id, length m.sets) ∷ m.clients;
          })
          (first_ref c.tenant_id (length m.sets) m.clients)
          (rw (set_at-append m.sets (add_client c [])) (inl refl)))
  | inr (ref, e) ↦
      let o = Reachable-IsOwned m r in
      let within = (o.found c.tenant_id ref (ref_of-In c.tenant_id ref m.clients e)).1 in
      let fresh =
        subst (λ set. any (λ (d : SseClient). str_eq d.id c.id) set ≡ false)
          (tenant_clients-some c.tenant_id ref m e) h in
      rw (e, subscribe)
        (found-In c ref (record m { sets = update_at ref (add_client c) m.sets }) e
          (rw (set_at-update_at ref (add_client c) m.sets within)
            (add_client-In c (set_at ref m.sets) fresh)))
]

-- A client that has subscribed receives every event of its tenant that it may see.
subscribe-publish :
    (m : SubscriptionManager) (c : SseClient) (event : EventPayload)
    → Reachable m
    → IsNew c m
    → client_should_receive c event ≡ true
    → In c (publish c.tenant_id event (subscribe c m).0)
unfolding publish
subscribe-publish m c event r h see =
    filter-In (λ x. client_should_receive x event) c (tenant_clients c.tenant_id (subscribe c m).0)
      (subscribed-In m c r h) see
