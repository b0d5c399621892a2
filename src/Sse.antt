-- ===== src/Sse.antt =====
-- sse/subscription-manager.ts: the hub that hands events to the connected dashboards. The sets of
-- clients are shared objects: the hub finds a tenant's set by its reference, and the function that
-- unsubscribes keeps the reference of the set that its client was added to. A client object is told
-- from another by its id.
pub mod Isolation
pub mod Delivery
pub mod Tests
use dep_customs.Prelude.{
  ℕ, zero, suc, String, Bool, true, false, not, ◌||◌, List, [], ◌∷◌, ◌++◌, Option, none, some,
  str_eq, length, if◌then◌else◌, filter, any,
}

pub record SseClient : Type 0 where
  pub id : String
  pub tenant_id : String
  pub has_tenant_event_access : Bool
  pub allowed_projects : Option (List String)
  pub project_filter : Option String

-- the field of an event that the hub reads
pub record EventPayload : Type 0 where
  pub id : String
  pub project_id : Option String

-- the sets that were made, and the reference of each tenant's set
pub record SubscriptionManager : Type 0 where
  pub sets : List (List SseClient)
  pub clients : List (String × ℕ)

abbrev pub no_clients : SubscriptionManager
no_clients = record { sets = []; clients = [] }

abbrev pub set_at : ℕ → List (List SseClient) → List SseClient
set_at ref [] = []
set_at zero (s ∷ sets) = s
set_at (suc ref) (s ∷ sets) = set_at ref sets

abbrev pub update_at :
    ℕ → (List SseClient → List SseClient) → List (List SseClient) → List (List SseClient)
update_at ref f [] = []
update_at zero f (s ∷ sets) = f s ∷ sets
update_at (suc ref) f (s ∷ sets) = s ∷ update_at ref f sets

-- `clients.get(tenantId)` and `clients.delete(tenantId)`
abbrev pub ref_of : String → List (String × ℕ) → Option ℕ
ref_of tenant_id [] = none
ref_of tenant_id ((t, ref) ∷ clients) =
    if str_eq t tenant_id then some ref else ref_of tenant_id clients

abbrev pub without : String → List (String × ℕ) → List (String × ℕ)
without tenant_id clients = filter (λ (entry : String × ℕ). not (str_eq entry.0 tenant_id)) clients

abbrev same_client : SseClient → SseClient → Bool
same_client c d = str_eq d.id c.id

abbrev pub add_client : SseClient → List SseClient → List SseClient
add_client c set = if any (same_client c) set then set else set ++ c ∷ []

abbrev pub delete_client : SseClient → List SseClient → List SseClient
delete_client c set = filter (λ d. not (same_client c d)) set

abbrev is_empty : List SseClient → Bool
is_empty [] = true
is_empty (_ ∷ _) = false

-- The new state, and the reference of the set that the client was added to.
unfoldable pub subscribe : SseClient → SubscriptionManager → SubscriptionManager × ℕ
subscribe client m = elim (ref_of client.tenant_id m.clients) [
  | none ↦ (
    record {
      sets = m.sets ++ add_client client [] ∷ [];
      clients = (client.tenant_id, length m.sets) ∷ m.clients;
    },
    length m.sets,
  )
  | some ref ↦ (record m { sets = update_at ref (add_client client) m.sets }, ref)
]

-- the function that `subscribe` returns
unfoldable pub unsubscribe : SseClient → ℕ → SubscriptionManager → SubscriptionManager
unsubscribe client ref m =
    let sets = update_at ref (delete_client client) m.sets in
    record {
      sets = sets;
      clients =
          if is_empty (set_at ref sets) then without client.tenant_id m.clients else m.clients;
    }

abbrev is_project : Option String → Option String → Bool
is_project none project = false
is_project (some p) none = false
is_project (some p) (some q) = str_eq p q

abbrev among : Option String → List String → Bool
among none projects = false
among (some p) projects = any (str_eq p) projects

abbrev scoped : SseClient → EventPayload → Option (List String) → Bool
scoped client event none = true
scoped client event (some projects) =
    client.has_tenant_event_access || among event.project_id projects

abbrev filtered : SseClient → EventPayload → Option String → Bool
filtered client event none = scoped client event client.allowed_projects
filtered client event (some project) = is_project event.project_id (some project)

unfoldable pub client_should_receive : SseClient → EventPayload → Bool
client_should_receive client event = filtered client event client.project_filter

abbrev pub tenant_clients : String → SubscriptionManager → List SseClient
tenant_clients tenant_id m = elim (ref_of tenant_id m.clients) [
  | none ↦ []
  | some ref ↦ set_at ref m.sets
]

-- the clients to which the event is sent
unfoldable pub publish : String → EventPayload → SubscriptionManager → List SseClient
publish tenant_id event m = filter (λ c. client_should_receive c event) (tenant_clients tenant_id m)

unfoldable pub client_count : String → SubscriptionManager → ℕ
client_count tenant_id m = length (tenant_clients tenant_id m)
