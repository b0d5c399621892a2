-- ===== src/Connectors/Entries.antt =====
-- The table connector_cache, and the search of connectors/cache.ts for an entry that is fresh. Times
-- are milliseconds. A connector is its id, its time to live and its cache policy.
use dep_customs.Prelude.{
  ◌>>=◌, ℕ, String, Bool, false, not, ◌&&◌, List, Option, none, some, or_else, leb, if◌then◌else◌,
  is_some, str_eq, find, ◌+◌, ◌*◌,
}
use dep_customs.Policy.Value.{Value}
use dep_customs.Connectors.Results.{VulnSeverity, ConnectorResultSummary}

-- an event with the ids of its package and, if it asks for an artifact, of the version
pub data ConnectorArtifactEvent : Type 0 where
  package_metadata : (package_id : String) → ConnectorArtifactEvent
  artifact_request : (package_id package_version_id : String) → ConnectorArtifactEvent

pub record Connector : Type 0 where
  pub id : String
  pub cache_ttl_seconds : ℕ
  pub read_snapshots : Bool

pub record CacheFinding (N : Type 0) : Type 0 where
  pub id : String
  pub severity : VulnSeverity
  pub title : Option String
  pub published_at : Option ℕ
  pub attributes : List (String × Value N)

pub record CacheData (N : Type 0) : Type 0 where
  pub score_model_version : String
  pub findings : List (CacheFinding N)
  pub summary : Option (ConnectorResultSummary N)

pub record CacheRow (N : Type 0) : Type 0 where
  pub id : String
  pub connector_id : String
  pub package_id : Option String
  pub package_version_id : Option String
  pub risk_tier : VulnSeverity
  pub risk_score : Option ℕ
  pub finding_count : ℕ
  pub remediation_available : Bool
  pub best_remediation : Option String
  pub data_column : Option (CacheData N)
  pub ttl_seconds : Option ℕ
  pub queried_at : ℕ

unfoldable pub has_id : String → Option String → Bool
has_id id none = false
has_id id (some id') = str_eq id' id

unfoldable pub event_package_id : ConnectorArtifactEvent → String
event_package_id (package_metadata p) = p
event_package_id (artifact_request p v) = p

unfoldable pub event_package_version_id : ConnectorArtifactEvent → Option String
event_package_version_id (package_metadata p) = none
event_package_version_id (artifact_request p v) = some v

module _ {N : Type 0} where
  unfoldable pub is_keyed : ConnectorArtifactEvent → CacheRow N → Bool
  is_keyed (artifact_request p v) row = has_id v row.package_version_id
  is_keyed (package_metadata p) row =
      has_id p row.package_id && not (is_some row.package_version_id)

  unfoldable pub is_entry : Connector → ConnectorArtifactEvent → CacheRow N → Bool
  is_entry connector event row = str_eq row.connector_id connector.id && is_keyed event row

  unfoldable pub fresh_row : Connector → (now : ℕ) → CacheRow N → Option (CacheRow N)
  fresh_row connector now row =
      if leb (row.queried_at + or_else row.ttl_seconds connector.cache_ttl_seconds * 1000) now
      then none
      else some row

  unfoldable pub find_fresh_cache_row :
      Connector → ConnectorArtifactEvent → (now : ℕ) → List (CacheRow N) → Option (CacheRow N)
  find_fresh_cache_row connector event now rows =
      find (is_entry connector event) rows >>= fresh_row connector now
