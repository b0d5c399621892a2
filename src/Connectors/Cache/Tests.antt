-- ===== src/Connectors/Cache/Tests.antt =====
-- A result with one finding, cached over an older entry of its version.
use dep_customs.Prelude.{String, true, false, List, [], ◌∷◌, none, some, ◌≡◌, refl}
use dep_customs.Policy.Value.Sample.{Sample}
use dep_customs.Connectors.Results.{
  VulnSeverity, high, low, no_severity, ConnectorFinding, ConnectorResult, ConnectorResultSummary,
  RiskSummary, RemediationSummary, VulnerabilitySummary,
}
use dep_customs.Connectors.Entries.{ConnectorArtifactEvent, artifact_request, Connector, CacheRow}
use dep_customs.Connectors.Cache.{
  upsert_cached_result, get_cached_result, get_package_scoped_cached_result, build_cached_snapshot,
}
use dep_customs.Connectors.Cache.Stored.{upsert_cached_result-read}

abbrev osv : Connector
osv = record { id = "osv"; cache_ttl_seconds = 60; read_snapshots = true }

abbrev event : ConnectorArtifactEvent
event = artifact_request "p1" "v1"

abbrev advisory : ConnectorFinding Sample
advisory = record {
  finding_id = "GHSA-1";
  severity = high;
  title = none;
  published_at = some 5;
  attributes = [];
}

abbrev result : ConnectorResult Sample
result = record { findings = advisory ∷ []; summary = none; ttl_seconds = some 1; legacy = none }

abbrev old_row : CacheRow Sample
old_row = record {
  id = "c1";
  connector_id = "osv";
  package_id = some "p1";
  package_version_id = some "v1";
  risk_tier = low;
  risk_score = none;
  finding_count = 0;
  remediation_available = false;
  best_remediation = none;
  data_column = none;
  ttl_seconds = none;
  queried_at = 0;
}

-- what the cache answers with
abbrev answered : List (ConnectorFinding Sample) → ConnectorResult Sample
answered findings = record {
  findings = findings;
  summary = some (record {
    risk = some (record { tier = high; score = none });
    findings = some 1;
    remediation = some (record { available = false; best = none });
    vulnerability = some (record {
      max_severity = high;
      finding_count = 1;
      fix_available = false;
      best_fix_version = none;
      severity_counts = none;
    });
    blocks = [];
  });
  ttl_seconds = none;
  legacy = none;
}

-- half a second later
upsert_cached_result-read_example :
    (id : String) × (get_package_scoped_cached_result osv event 1500
        (upsert_cached_result osv event result none 1000 "c2" (old_row ∷ []))
      ≡ some (answered (advisory ∷ [])))
    × (get_cached_result osv event 1500
          (upsert_cached_result osv event result none 1000 "c2" (old_row ∷ []))
        ≡ some (answered []))
    × (build_cached_snapshot
          (λ r age. age)
          osv
          event
          1500
          (upsert_cached_result osv event result none 1000 "c2" (old_row ∷ []))
        ≡ some (500, id, advisory ∷ []))
unfolding dep_customs.Connectors.Cache.stored_summary
    dep_customs.Connectors.Results.risk_summary_from_result
    dep_customs.Connectors.Results.findings_summary_from_result
    dep_customs.Connectors.Results.remediation_summary_from_result
    dep_customs.Connectors.Results.vulnerability_summary_from_result
    dep_customs.Connectors.Results.derived_vulnerability
    dep_customs.Connectors.Results.highest_finding_severity
    dep_customs.Connectors.Results.highest_from dep_customs.Connectors.Results.worse
    dep_customs.Connectors.Results.severity_index
upsert_cached_result-read_example =
    upsert_cached_result-read osv event result none 1000 "c2" (λ r age. age) (old_row ∷ []) 1500
      refl
