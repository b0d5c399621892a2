-- ===== src/Policy/Resolver.antt =====
-- policy/resolver.ts: the flat field map of one evaluation. The map is read by its newest entry, so
-- that `fields[key] = v` is an entry in front.
pub mod Laws
pub mod Owned
pub mod Tests
use dep_customs.Prelude.{String, Bool, false, List, [], ◌∷◌, Option, none, some, concat}
use dep_customs.Policy.Value.{JsNumber, Value, null, bool, num, str}
use dep_customs.Policy.Expression.{Fields}

-- connectors/types.ts: the part of a connector's snapshot that the resolver reads
pub record SnapshotMeta (N : Type 0) : Type 0 where
  pub status : String
  pub response_time_ms : N
  pub cache_age_hours : Option N
  pub is_cache_hit : Bool
  pub error_code : Option String

pub record ConnectorSnapshot (N : Type 0) : Type 0 where
  pub connector_key : String
  pub fields : List (String × Value N)
  pub meta : SnapshotMeta N

pub record AssetContext (N : Type 0) : Type 0 where
  pub ecosystem : String
  pub pkg : String
  pub version : String
  pub version_published_at : Option String
  pub version_age_days : Option N
  pub latest_version_published_at : Option String

-- `source.${key}._meta.${name}` and `source.${key}.${name}`
abbrev pub meta_ref : String → String → String
meta_ref key name = concat ("source." ∷ key ∷ "._meta." ∷ name ∷ [])

abbrev pub field_ref : String → String → String
field_ref key name = concat ("source." ∷ key ∷ "." ∷ name ∷ [])

module _ {N : Type 0} where
  abbrev pub text_or_null : Option String → Value N
  text_or_null none = null
  text_or_null (some s) = str s

  abbrev pub num_or_null : Option N → Value N
  num_or_null none = null
  num_or_null (some n) = num n

  -- `fields[key] = value`
  abbrev pub write : String → Value N → Fields N → Fields N
  write key value fields = (key, value) ∷ fields

  unfoldable pub asset_fields : AssetContext N → Fields N → Fields N
  asset_fields asset fields =
      write "asset.latest_version_published_at" (text_or_null asset.latest_version_published_at) (
        write "asset.version_age_days" (num_or_null asset.version_age_days) (
          write "asset.version_published_at" (text_or_null asset.version_published_at) (
            write "asset.version" (str asset.version) (
              write "asset.package" (str asset.pkg)
                (write "asset.ecosystem" (str asset.ecosystem) fields)))))

  unfoldable pub error_field : String → Option String → Fields N → Fields N
  error_field key none fields = fields
  error_field key (some code) fields = write (meta_ref key "error_code") (str code) fields

  unfoldable pub meta_fields : String → SnapshotMeta N → Fields N → Fields N
  unfolding error_field
  meta_fields key meta fields = error_field key meta.error_code (
      write (meta_ref key "is_cache_hit") (bool meta.is_cache_hit) (
        write (meta_ref key "cache_age_hours") (num_or_null meta.cache_age_hours) (
          write (meta_ref key "response_time_ms") (num meta.response_time_ms)
            (write (meta_ref key "status") (str meta.status) fields))))

  unfoldable pub data_fields : String → List (String × Value N) → Fields N → Fields N
  data_fields key [] fields = fields
  data_fields key ((name, value) ∷ more) fields =
      data_fields key more (write (field_ref key name) value fields)

  unfoldable pub snapshot_fields : List (ConnectorSnapshot N) → Fields N → Fields N
  unfolding meta_fields data_fields
  snapshot_fields [] fields = fields
  snapshot_fields (s ∷ more) fields =
      snapshot_fields more
        (data_fields s.connector_key s.fields (meta_fields s.connector_key s.meta fields))

  -- `now` is the time of the evaluation, as `toISOString` shows it
  unfoldable pub resolve_fields : String → List (ConnectorSnapshot N) → AssetContext N → Fields N
  unfolding asset_fields snapshot_fields
  resolve_fields now snapshots asset =
      snapshot_fields snapshots
        (write "runtime.request_timestamp" (str now) (asset_fields asset []))

module _ {N : Type 0} ⦃js : JsNumber N⦄ where
  unfoldable pub unavailable_snapshot : String → ConnectorSnapshot N
  unavailable_snapshot key = record {
    connector_key = key;
    fields = [];
    meta = record {
      status = "unavailable";
      response_time_ms = js.zero_number;
      cache_age_hours = none;
      is_cache_hit = false;
      error_code = none;
    };
  }
