-- ===== src/Policy/Resolver/Tests.antt =====
-- Two connectors that answer for one package, one of them late in the list and unavailable.
use dep_customs.Prelude.{◌≡◌, ◌≢◌, String, false, [], ◌∷◌, ◌++◌, none, some, arith, eq_iff}
use dep_customs.Policy.Value.{num, str}
use dep_customs.Policy.Value.Sample.{Sample, natural, sample_number}
use dep_customs.Policy.Expression.{get_field}
use dep_customs.Policy.Resolver.{
  AssetContext, ConnectorSnapshot, meta_ref, resolve_fields, unavailable_snapshot,
}
use dep_customs.Policy.Resolver.Owned.{resolve_fields_status}

abbrev asset : AssetContext Sample
asset = record {
  ecosystem = "npm";
  pkg = "lodash";
  version = "4.17.21";
  version_published_at = none;
  version_age_days = some (natural 2);
  latest_version_published_at = none;
}

abbrev osv : ConnectorSnapshot Sample
osv = record {
  connector_key = "osv";
  fields = ("count", num (natural 1)) ∷ [];
  meta = record {
    status = "ok";
    response_time_ms = natural 1;
    cache_age_hours = none;
    is_cache_hit = false;
    error_code = none;
  };
}

key_ne : ◌≢◌ {A = String} "kev" "osv"
key_ne e = ground (arith, eq_iff "kev" "osv", e)

count_ne : ◌≢◌ {A = String} "count" "_meta.status"
count_ne e = ground (arith, eq_iff "count" "_meta.status", e)

resolve_fields_status_example :
    get_field
      (meta_ref "osv" "status")
      (resolve_fields "now" ([] ++ osv ∷ unavailable_snapshot "kev" ∷ []) asset)
    ≡ str "ok"
unfolding unavailable_snapshot
resolve_fields_status_example =
    resolve_fields_status "now" [] osv (unavailable_snapshot "kev" ∷ []) asset
      ((λ e. omega (arith, e)), ((λ e. omega (arith, e)), ((λ e. omega (arith, e)), tt)))
      (
        (
          ((λ e. omega (arith, e)), ((λ e. omega (arith, e)), ((λ e. omega (arith, e)), tt))),
          key_ne,
        ),
        tt,
      )
      (count_ne, tt)
