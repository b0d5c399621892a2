-- ===== src/Sse/Tests.antt =====
-- A member of one project, and an admin of another tenant.
use dep_customs.Prelude.{String, ◌≡◌, refl, true, false, [], ◌∷◌, some, none, inl}
use dep_customs.Sse.{
  SseClient, EventPayload, SubscriptionManager, no_clients, subscribe, client_should_receive,
  publish,
}
use dep_customs.Sse.Isolation.{Reachable, start, subscribed, publish_isolated}

abbrev member : SseClient
member = record {
  id = "c1";
  tenant_id = "t1";
  has_tenant_event_access = false;
  allowed_projects = some ("p1" ∷ []);
  project_filter = none;
}

abbrev outsider : SseClient
outsider = record member { id = "c2"; tenant_id = "t2" }

abbrev event : EventPayload
event = record { id = "e1"; project_id = some "p1" }

abbrev hub : SubscriptionManager
hub = (subscribe member (subscribe outsider no_clients).0).0

reachable : Reachable hub
reachable =
    subscribed (subscribe outsider no_clients).0 member (subscribed no_clients outsider start)

publish_isolated_example :
    (◌≡◌ {A = String} "t1" "t1") × (client_should_receive member event ≡ true)
unfolding publish subscribe client_should_receive
publish_isolated_example = publish_isolated hub "t1" event member reachable (inl refl)
