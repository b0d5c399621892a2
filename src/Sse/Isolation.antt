-- ===== src/Sse/Isolation.antt =====
-- Which clients an event reaches.
use dep_customs.Prelude.{
  ℕ, zero, suc, ◌+◌, ◌<◌, String, ◌≡◌, ◌⊎◌, refl, sym, ap, subst, ◌∙◌, Bool, true, false, List, [],
  ◌∷◌, ◌++◌, none, some, inl, inr, arith, str_eq, eq_iff, length, length-append, if◌then◌else◌, any,
  ◌==◌, In, In-filter, In-append, Bool-cases, Option-cases,
}
use dep_customs.Sse.{
  SseClient, EventPayload, SubscriptionManager, no_clients, set_at, update_at, ref_of, without,
  add_client, delete_client, subscribe, unsubscribe, client_should_receive, tenant_clients, publish,
}

-- The states of the hub: any client subscribes, and any client is taken out of any set.
pub data Reachable : SubscriptionManager → Type 0 where
  start : Reachable no_clients
  subscribed : (m : SubscriptionManager) (c : SseClient) → Reachable m → Reachable (subscribe c m).0
  unsubscribed :
      (m : SubscriptionManager) (c : SseClient) (ref : ℕ)
      → Reachable m
      → Reachable (unsubscribe c ref m)

-- Every set belongs to one tenant, for which alone the hub finds it and whose clients alone it holds.
pub record IsOwned (m : SubscriptionManager) : Type 0 where
  pub owner : ℕ → String
  pub found :
      (t : String) (ref : ℕ) → In (t, ref) m.clients → (owner ref ≡ t) × (ref < length m.sets)
  pub held :
      (ref : ℕ) (c : SseClient)
      → In c (set_at ref m.sets)
      → (c.tenant_id ≡ owner ref) × (ref < length m.sets)

In-set_at-update_at :
    (c : SseClient) (ref at : ℕ) (f : List SseClient → List SseClient)
    (sets : List (List SseClient))
    → In c (set_at ref (update_at at f sets))
    → In c (set_at ref sets) ⊎ ((ref ≡ at) × In c (f (set_at ref sets)) × (ref < length sets))
In-set_at-update_at c ref at f [] i = absurd i
In-set_at-update_at c zero zero f (s ∷ sets) i = inr (refl, i, omega arith)
In-set_at-update_at c zero (suc at) f (s ∷ sets) i = inl i
In-set_at-update_at c (suc ref) zero f (s ∷ sets) i = inl i
In-set_at-update_at c (suc ref) (suc at) f (s ∷ sets) i =
    elim (In-set_at-update_at c ref at f sets i) [
      | inl j ↦ inl j
      | inr (e, j, k) ↦ inr (ap suc e, j, omega (arith, k))
    ]

In-set_at-append :
    (c : SseClient) (ref : ℕ) (sets : List (List SseClient)) (s : List SseClient)
    → In c (set_at ref (sets ++ s ∷ []))
    → (In c (set_at ref sets)) ⊎ ((ref ≡ length sets) × In c s)
In-set_at-append c zero [] s i = inr (refl, i)
In-set_at-append c (suc ref) [] s i = absurd i
In-set_at-append c zero (x ∷ sets) s i = inl i
In-set_at-append c (suc ref) (x ∷ sets) s i = elim (In-set_at-append c ref sets s i) [
  | inl j ↦ inl j
  | inr (e, j) ↦ inr (ap suc e, j)
]

length-update_at :
    (at : ℕ) (f : List SseClient → List SseClient) (sets : List (List SseClient))
    → length (update_at at f sets) ≡ length sets
length-update_at at f [] = refl
length-update_at zero f (s ∷ sets) = refl
length-update_at (suc at) f (s ∷ sets) = ap suc (length-update_at at f sets)

In-add_client :
    (c d : SseClient) (set : List SseClient) → In d (add_client c set) → In d set ⊎ (d ≡ c)
In-add_client c d set i = elim (Bool-cases (any (λ x. str_eq x.id c.id) set)) [
  | inl e ↦ inl (rw e at i)
  | inr e ↦ elim (In-append d set (c ∷ []) (rw e at i)) [
    | inl j ↦ inl j
    | inr (inl q) ↦ inr q
    | inr (inr j) ↦ absurd j
  ]
]

pub ref_of-In :
    (t : String) (ref : ℕ) (clients : List (String × ℕ))
    → ref_of t clients ≡ some ref
    → In (t, ref) clients
ref_of-In t ref [] h = cc
ref_of-In t ref ((u, r) ∷ clients) h = elim (Bool-cases (str_eq u t)) [
  | inl e ↦
      let same : u ≡ t = (eq_iff u t).0 e in
      let k : some r ≡ some ref = rw e at h in inl (cc (same, k))
  | inr e ↦ inr (ref_of-In t ref clients (rw e at h))
]

In-if_without :
    (tenant_id : String) (entry : String × ℕ) (clients : List (String × ℕ)) (b : Bool)
    → In entry (if b then without tenant_id clients else clients)
    → In entry clients
In-if_without tenant_id entry clients true i = (In-filter _ entry clients i).0
In-if_without tenant_id entry clients false i = i

IsOwned-no_clients : IsOwned no_clients
IsOwned-no_clients = record {
  owner = λ ref. "";
  found = λ t ref i. absurd i;
  held = λ ref c i. absurd i;
}

IsOwned-unsubscribe :
    (c : SseClient) (ref : ℕ) (m : SubscriptionManager) → IsOwned m → IsOwned (unsubscribe c ref m)
unfolding unsubscribe
IsOwned-unsubscribe c ref m o = record {
  owner = o.owner;
  found = λ t r i.
      let (e, k) = o.found t r (In-if_without _ (t, r) m.clients _ i) in
      (e, rw (length-update_at ref (delete_client c) m.sets) k);
  held = λ r d i. elim (In-set_at-update_at d r ref (delete_client c) m.sets i) [
    | inl j ↦ let (e, k) = o.held r d j in (e, rw (length-update_at ref (delete_client c) m.sets) k)
    | inr (e, j, k) ↦ (
      (o.held r d (In-filter _ d (set_at r m.sets) j).0).0,
      rw (length-update_at ref (delete_client c) m.sets) k,
    )
  ];
}

if_same : (n : ℕ) (s t : String) → (if n == n then s else t) ≡ s
if_same n s t = ground arith

if_less : (r n : ℕ) (s t : String) → r < n → (if r == n then s else t) ≡ t
if_less r n s t h = ground (arith, h)

tenant_clients-none :
    (t : String) (m : SubscriptionManager) → ref_of t m.clients ≡ none → tenant_clients t m ≡ []
tenant_clients-none t m e = rw (e, tenant_clients) refl

pub tenant_clients-some :
    (t : String) (ref : ℕ) (m : SubscriptionManager)
    → ref_of t m.clients ≡ some ref
    → tenant_clients t m ≡ set_at ref m.sets
tenant_clients-some t ref m e = rw (e, tenant_clients) refl

-- a set for a tenant that has none
IsOwned-new_set :
    (c : SseClient) (m : SubscriptionManager)
    → IsOwned m
    → IsOwned (record {
      sets = m.sets ++ add_client c [] ∷ [];
      clients = (c.tenant_id, length m.sets) ∷ m.clients;
    })
IsOwned-new_set c m o =
    let n = length m.sets in
    let longer : length (m.sets ++ add_client c [] ∷ []) ≡ n + 1 =
      length-append m.sets (add_client c [] ∷ []) in
    record {
      owner = λ r. if r == n then c.tenant_id else o.owner r;
      found = λ t r i. elim i [
        | inl q ↦
            let same : (t ≡ c.tenant_id) × (r ≡ n) =
              (ap (λ (x : String × ℕ). x.0) q, ap (λ (x : String × ℕ). x.1) q) in
            (rw (same.1) (if_same n c.tenant_id _ ∙ sym (same.0)), omega (arith, longer, same.1))
        | inr j ↦
            let (e, k) = o.found t r j in
            (if_less r n c.tenant_id (o.owner r) k ∙ e, omega (arith, longer, k))
      ];
      held = λ r d i. elim (In-set_at-append d r m.sets (add_client c []) i) [
        | inl j ↦
            let (e, k) = o.held r d j in
            (e ∙ sym (if_less r n c.tenant_id (o.owner r) k), omega (arith, longer, k))
        | inr (e, j) ↦ elim (In-add_client c d [] j) [
          | inl k ↦ absurd k
          | inr q ↦ (rw (q, e) (sym (if_same n c.tenant_id _)), omega (arith, longer, e))
        ]
      ];
    }

IsOwned-subscribe :
    (c : SseClient) (m : SubscriptionManager) → IsOwned m → IsOwned (subscribe c m).0
unfolding subscribe
IsOwned-subscribe c m o = elim (Option-cases (ref_of c.tenant_id m.clients)) [
  | inl e ↦ rw (e, subscribe) (IsOwned-new_set c m o)
  | inr (ref, e) ↦
      let (own, within) = o.found c.tenant_id ref (ref_of-In c.tenant_id ref m.clients e) in
      let kept = length-update_at ref (add_client c) m.sets in
      rw (e, subscribe)
        (record {
          owner = o.owner;
          found = λ t r i. let (q, k) = o.found t r i in (q, rw kept k);
          held = λ r d i. elim (In-set_at-update_at d r ref (add_client c) m.sets i) [
            | inl j ↦ let (q, k) = o.held r d j in (q, rw kept k)
            | inr (same, j, k) ↦ elim (In-add_client c d (set_at r m.sets) j) [
              | inl l ↦ ((o.held r d l).0, rw kept k)
              | inr q ↦ (rw (q, same) (sym own), rw kept k)
            ]
          ];
        })
]

pub Reachable-IsOwned : (m : SubscriptionManager) → Reachable m → IsOwned m
Reachable-IsOwned _ start = IsOwned-no_clients
Reachable-IsOwned _ (subscribed m c r) = IsOwned-subscribe c m (Reachable-IsOwned m r)
Reachable-IsOwned _ (unsubscribed m c ref r) = IsOwned-unsubscribe c ref m (Reachable-IsOwned m r)

-- An event of a tenant reaches only clients of this tenant, and of these only clients that may see
-- it, after any subscriptions and unsubscriptions, also repeated ones.
pub publish_isolated :
    (m : SubscriptionManager) (tenant_id : String) (event : EventPayload) (c : SseClient)
    → Reachable m
    → In c (publish tenant_id event m)
    → (c.tenant_id ≡ tenant_id) × (client_should_receive c event ≡ true)
unfolding publish
publish_isolated m tenant_id event c r i =
    let o = Reachable-IsOwned m r in
    let (j, see) =
      In-filter (λ x. client_should_receive x event) c (tenant_clients tenant_id m) i in
    elim (Option-cases (ref_of tenant_id m.clients)) [
      | inl e ↦ absurd (subst (λ x. In c x) (tenant_clients-none tenant_id m e) j)
      | inr (ref, e) ↦
          let k = subst (λ x. In c x) (tenant_clients-some tenant_id ref m e) j in
          (
            (o.held ref c k).0 ∙ (o.found tenant_id ref (ref_of-In tenant_id ref m.clients e)).0,
            see,
          )
    ]
