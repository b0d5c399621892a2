-- ===== src/Proxies.antt =====
-- features/proxies/service.ts, lifecycle-service.ts and secrets.ts: the rows of proxies, and what
-- changes them. `hash_secret` is SHA-256, a random text an argument.
pub mod Auth
pub mod Jwt
pub mod Exchange
pub mod Routes
pub mod Secrets
pub mod Found
pub mod Rotation
pub mod Issued
pub mod Updates
pub mod Sharing
pub mod Tests
use mathlib.Core.Option
use dep_customs.Prelude.{
  ℕ, ◌+◌, String, Bool, ◌&&◌, ◌||◌, List, [], ◌∷◌, ◌++◌, map, Option, none, some, str_eq, concat,
  find, if◌then◌else◌,
}

pub record ProxyRow : Type 0 where
  pub id : String
  pub proxy_id : String
  pub tenant_id : String
  pub name : String
  pub status : String
  pub tenant_scope : String
  pub secret_hash : String
  pub secret_prev_hash : Option String
  pub secret_prev_expires_at : Option ℕ
  pub disabled_at : Option ℕ
  pub secret_rotated_at : Option ℕ
  pub last_seen_at : Option ℕ
  pub created_at : ℕ
  pub updated_at : ℕ

pub record StatusEvent : Type 0 where
  pub tenant_id : String
  pub proxy_id : String
  pub proxy_ip : Option String
  pub event_type : String
  pub actor_user_id : Option String
  pub detail : Option String

-- the rows after an operation, the events that it inserts, and the row that it returns
pub record ProxyChange (A : Type 0) : Type 0 where
  pub rows : List ProxyRow
  pub events : List StatusEvent
  pub result : Option A

pub record LifecycleInput : Type 0 where
  pub tenant_id : String
  pub proxy_id : String
  pub actor_user_id : String

unfoldable pub is_proxy : (tenant_id proxy_id : String) → ProxyRow → Bool
is_proxy tenant_id proxy_id r = str_eq r.proxy_id proxy_id && str_eq r.tenant_id tenant_id

abbrev pub update_row : (tenant_id proxy_id : String) → (ProxyRow → ProxyRow) → ProxyRow → ProxyRow
update_row tenant_id proxy_id f r = if is_proxy tenant_id proxy_id r then f r else r

abbrev actor_event : LifecycleInput → String → StatusEvent
actor_event input event_type = record {
  tenant_id = input.tenant_id;
  proxy_id = input.proxy_id;
  proxy_ip = none;
  event_type = event_type;
  actor_user_id = some input.actor_user_id;
  detail = none;
}

-- an update of the rows of a proxy, with an event if there is one
abbrev pub update_proxies :
    (input : LifecycleInput)
    → (ProxyRow → ProxyRow)
    → (event_type : String) → List ProxyRow
    → ProxyChange ProxyRow
update_proxies input f event_type rows =
    elim (find (is_proxy input.tenant_id input.proxy_id) rows) [
      | none ↦ record {
        rows = map (update_row input.tenant_id input.proxy_id f) rows;
        events = [];
        result = none;
      }
      | some r ↦ record {
        rows = map (update_row input.tenant_id input.proxy_id f) rows;
        events = actor_event input event_type ∷ [];
        result = some (f r);
      }
    ]

abbrev pub with_status : (now : ℕ) → (next_status : String) → ProxyRow → ProxyRow
with_status now next_status r = record r {
  status = next_status;
  disabled_at =
      if str_eq next_status "disabled" || str_eq next_status "revoked" then some now else none;
  updated_at = now;
}

unfoldable pub disable_proxy : ℕ → LifecycleInput → List ProxyRow → ProxyChange ProxyRow
disable_proxy now input = update_proxies input (with_status now "disabled") "proxy_disabled"

unfoldable pub enable_proxy : ℕ → LifecycleInput → List ProxyRow → ProxyChange ProxyRow
enable_proxy now input = update_proxies input (with_status now "active") "proxy_enabled"

unfoldable pub revoke_proxy : ℕ → LifecycleInput → List ProxyRow → ProxyChange ProxyRow
revoke_proxy now input = update_proxies input (with_status now "revoked") "proxy_revoked"

abbrev pub with_secret : (now : ℕ) → (secret_hash : String) → ProxyRow → ProxyRow
with_secret now secret_hash r = record r {
  secret_prev_hash = some r.secret_hash;
  secret_prev_expires_at = some (now + 3600000);
  secret_hash = secret_hash;
  secret_rotated_at = some now;
  updated_at = now;
}

unfoldable pub rotate_proxy_secret :
    (hash_secret : String → String)
    → (raw_secret : String) → ℕ
    → LifecycleInput
    → List ProxyRow
    → ProxyChange ProxyRow
rotate_proxy_secret hash_secret raw_secret now input =
    update_proxies input (with_secret now (hash_secret raw_secret)) "secret_rotated"

-- the generated secret, of the digits that are drawn
abbrev pub generate_proxy_secret : (random_hex : String) → String
generate_proxy_secret random_hex = concat ("cxp_" ∷ random_hex ∷ [])

unfoldable pub create_proxy :
    (hash_secret : String → String)
    → (id proxy_id raw_secret : String) → ℕ
    → (tenant_id name : String) → List ProxyRow
    → List ProxyRow
create_proxy hash_secret id proxy_id raw_secret now tenant_id name rows =
    rows
    ++ record {
      id = id;
      proxy_id = proxy_id;
      tenant_id = tenant_id;
      name = name;
      status = "active";
      tenant_scope = "owner_only";
      secret_hash = hash_secret raw_secret;
      secret_prev_hash = none;
      secret_prev_expires_at = none;
      disabled_at = none;
      secret_rotated_at = none;
      last_seen_at = none;
      created_at = now;
      updated_at = now;
    }
      ∷ []

abbrev pub with_scope : ℕ → String → ProxyRow → ProxyRow
with_scope now tenant_scope r = record r { tenant_scope = tenant_scope; updated_at = now }

unfoldable pub update_proxy_tenant_scope :
    ℕ → (tenant_id proxy_id tenant_scope : String) → List ProxyRow → List ProxyRow × Option ProxyRow
update_proxy_tenant_scope now tenant_id proxy_id tenant_scope rows = (
  map (update_row tenant_id proxy_id (with_scope now tenant_scope)) rows,
  Option.map (with_scope now tenant_scope) (find (is_proxy tenant_id proxy_id) rows),
)
