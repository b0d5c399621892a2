-- ===== src/Connectors/Cache.antt =====
-- connectors/cache.ts: what is read out of an entry of the cache, and the upsert. The ISO text of a
-- date is kept as the time it denotes. `normalize` is the connector's normalizeToSnapshot, on the
-- result and the age of the entry. The database makes the ids.
pub mod Stored
pub mod Tests
use dep_customs.Prelude.{
  ◌>>=◌, ℕ, String, Bool, true, false, not, ◌&&◌, List, [], ◌∷◌, map, Option, none, some, length,
  or_else, ltb, ◌==◌, if◌then◌else◌, filter, ◌-◌,
}
use dep_customs.Connectors.Results.{
  VulnSeverity, critical, high, medium, low, severity_index, SeverityCounts, ConnectorResultSummary,
  ConnectorFinding, ConnectorResult, vulnerability_summary_from_result, risk_summary_from_result,
  findings_summary_from_result, remediation_summary_from_result,
}
use dep_customs.Connectors.Entries.{
  ConnectorArtifactEvent, Connector, CacheFinding, CacheData, CacheRow, event_package_id,
  event_package_version_id, is_entry, find_fresh_cache_row,
}

module _ {N : Type 0} where
  unfoldable pub is_broken : CacheRow N → List (CacheFinding N) → Bool
  is_broken row [] = ltb 0 row.finding_count
  is_broken row (f ∷ fs) = false

  abbrev count_of : VulnSeverity → List (CacheFinding N) → ℕ
  count_of s fs = length (filter (λ f. severity_index f.severity == severity_index s) fs)

  unfoldable pub counted : List (CacheFinding N) → Option SeverityCounts
  counted [] = none
  counted (f ∷ fs) = some (record {
    critical_count = count_of critical (f ∷ fs);
    high_count = count_of high (f ∷ fs);
    medium_count = count_of medium (f ∷ fs);
    low_count = count_of low (f ∷ fs);
  })

  -- the summary that the columns make up for one that is missing
  unfoldable pub column_summary : CacheRow N → List (CacheFinding N) → ConnectorResultSummary N
  column_summary row findings = record {
    risk = some (record { tier = row.risk_tier; score = row.risk_score });
    findings = some row.finding_count;
    remediation =
        some (record { available = row.remediation_available; best = row.best_remediation });
    vulnerability = some (record {
      max_severity = row.risk_tier;
      finding_count = row.finding_count;
      fix_available = row.remediation_available;
      best_fix_version = row.best_remediation;
      severity_counts = counted findings;
    });
    blocks = [];
  }

  unfoldable pub read_finding : CacheFinding N → ConnectorFinding N
  read_finding f = record {
    finding_id = f.id;
    severity = f.severity;
    title = f.title;
    published_at = f.published_at;
    attributes = f.attributes;
  }

  unfoldable pub write_finding : ConnectorFinding N → CacheFinding N
  write_finding f = record {
    id = f.finding_id;
    severity = f.severity;
    title = f.title;
    published_at = f.published_at;
    attributes = f.attributes;
  }

  unfoldable pub cache_data : CacheRow N → CacheData N
  cache_data row =
      or_else row.data_column
        (record { score_model_version = "1.0"; findings = []; summary = none })

  unfoldable pub interpret_cache_row :
      (include_findings treat_broken_finding_state_as_miss : Bool)
      → CacheRow N
      → Option (ConnectorResult N × List (ConnectorFinding N))
  interpret_cache_row include_findings treat_broken row =
      let entry = cache_data row in
      if treat_broken && is_broken row entry.findings
      then none
      else some (
        record {
          findings = if include_findings then map read_finding entry.findings else [];
          summary = some (or_else entry.summary (column_summary row entry.findings));
          ttl_seconds = none;
          legacy = none;
        },
        map read_finding entry.findings,
      )

  unfoldable pub build_cached_snapshot :
      {S : Type 0}
      → (normalize : ConnectorResult N → (age : ℕ) → S) → Connector
      → ConnectorArtifactEvent
      → (now : ℕ) → List (CacheRow N)
      → Option (S × String × List (ConnectorFinding N))
  build_cached_snapshot normalize connector event now rows =
      if not connector.read_snapshots then none else do
        row ← find_fresh_cache_row connector event now rows
        read ← interpret_cache_row true true row
        some (normalize read.0 (now - row.queried_at), row.id, read.1)

  unfoldable pub get_cached_result :
      Connector
      → ConnectorArtifactEvent
      → (now : ℕ) → List (CacheRow N)
      → Option (ConnectorResult N)
  get_cached_result connector event now rows = do
    row ← find_fresh_cache_row connector event now rows
    read ← interpret_cache_row false false row
    some read.0

  unfoldable pub get_package_scoped_cached_result :
      Connector
      → ConnectorArtifactEvent
      → (now : ℕ) → List (CacheRow N)
      → Option (ConnectorResult N)
  get_package_scoped_cached_result connector event now rows = do
    row ← find_fresh_cache_row connector event now rows
    read ← interpret_cache_row true false row
    some read.0

  unfoldable pub stored_summary : ConnectorResult N → ConnectorResultSummary N
  stored_summary result =
      let vulnerability = vulnerability_summary_from_result result in
      or_else result.summary (record {
        risk = some (risk_summary_from_result result vulnerability);
        findings = some (findings_summary_from_result result);
        remediation = some (remediation_summary_from_result result vulnerability);
        vulnerability = some vulnerability;
        blocks = [];
      })

  -- the row that is written, under an id
  unfoldable pub written_row :
      Connector
      → ConnectorArtifactEvent
      → ConnectorResult N
      → (ttl : Option ℕ) → (now : ℕ) → String
      → CacheRow N
  written_row connector event result ttl now id =
      let vulnerability = vulnerability_summary_from_result result in
      let risk = risk_summary_from_result result vulnerability in
      let remediation = remediation_summary_from_result result vulnerability in
      record {
        id = id;
        connector_id = connector.id;
        package_id = some (event_package_id event);
        package_version_id = event_package_version_id event;
        risk_tier = risk.tier;
        risk_score = risk.score;
        finding_count = findings_summary_from_result result;
        remediation_available = remediation.available;
        best_remediation = remediation.best;
        data_column = some (record {
          score_model_version = "1.0";
          findings = map write_finding result.findings;
          summary = some (stored_summary result);
        });
        ttl_seconds = elim ttl [ some t ↦ some t | none ↦ result.ttl_seconds ];
        queried_at = now;
      }

  -- The index of the conflict holds one row at most for a key: the row that has it keeps its id and
  -- its connector, and takes the other columns.
  unfoldable pub upsert_cached_result :
      Connector
      → ConnectorArtifactEvent
      → ConnectorResult N
      → (ttl : Option ℕ) → (now : ℕ) → (new_id : String) → List (CacheRow N)
      → List (CacheRow N)
  upsert_cached_result connector event result ttl now new_id [] =
      written_row connector event result ttl now new_id ∷ []
  upsert_cached_result connector event result ttl now new_id (row ∷ rows) =
      let rest = upsert_cached_result connector event result ttl now new_id rows in
      if is_entry connector event row
      then record (written_row connector event result ttl now row.id) {
        connector_id = row.connector_id;
      }
        ∷ rows
      else row ∷ rest
