-- ===== src/Check.antt =====
-- `handleCheck` of connect/check-service.ts: a proxy asks whether a package may be served. What the
-- check reads is the record World: the tables, the connectors that support the request, the
-- snapshots that are stored once they have answered, the release dates and the clock. What it
-- writes, apart from logs, timings and the bookkeeping of references and of the token's last use, is
-- the recorded event.
pub mod Gate
pub mod Answers
pub mod Snapshots
pub mod Tests
use dep_customs.Prelude.{
  ℕ, String, Bool, true, not, List, [], ◌∷◌, ◌++◌, Option, none, some, str_eq, concat,
  if◌then◌else◌, find, any,
}
use dep_customs.Policy.Value.{JsNumber}
use dep_customs.Policy.Expression.{Eval, ok, ◌>>=◌, Fields}
use dep_customs.Policy.Resolver.{ConnectorSnapshot, resolve_fields, unavailable_snapshot}
use dep_customs.Policy.Tables.{Database}
use dep_customs.Policy.Effective.{load_effective_policy}
use dep_customs.Policy.Decision.{
  Verdict, allow, block, ServeMode, unspecified, redirect, pull, CollectedViolation,
  EvaluatedPolicyDecision, evaluate_policy_decision,
}
use dep_customs.Access.Projects.{ProjectRow}
use dep_customs.Packages.{CanonicalPackageIdentity, canonicalize_package_identity}
use dep_customs.Tokens.{TokenRow, VerifiedProxyContext, load_authorized_project_token}

pub record CheckRequest : Type 0 where
  pub project_token : String
  pub ecosystem : String
  pub pkg : String
  pub version : String

pub record CheckOutcome : Type 0 where
  pub decision : Verdict
  pub reason : String
  pub detail : String
  pub cache_ttl_seconds : ℕ
  pub serve_mode : ServeMode
  pub tenant_id : String
  pub project_id : String

-- a row of tenant_entitlements
pub record EntitlementRow : Type 0 where
  pub tenant_id : String
  pub allowed_ecosystems : Option (List String)
  pub serve_mode : String
  pub cache_ttl_seconds : ℕ

pub record PackageReleaseContext (N : Type 0) : Type 0 where
  pub version_published_at : Option String
  pub version_age_days : Option N
  pub latest_version_published_at : Option String

pub record World (N : Type 0) : Type 0 where
  pub hash_project_token : String → String
  pub to_lower_case : String → String
  pub tokens : List TokenRow
  pub projects : List ProjectRow
  pub entitlements : List EntitlementRow
  pub policies : Database N
  pub supported_connectors : CanonicalPackageIdentity → List String
  pub stored_snapshots : String → CanonicalPackageIdentity → List (ConnectorSnapshot N)
  pub release : CanonicalPackageIdentity → PackageReleaseContext N
  pub now : ℕ
  pub now_text : String

-- the event that `recordCheckEvent` writes, with the violations recorded beside it
pub record RecordedCheck (N : Type 0) : Type 0 where
  pub tenant_id : String
  pub project_id : String
  pub project_token_id : String
  pub decision : Verdict
  pub reason : String
  pub serve_mode : ServeMode
  pub violations : List (CollectedViolation N)

pub record CheckContext : Type 0 where
  pub token_row : TokenRow
  pub default_cache_ttl : ℕ
  pub serve_mode : ServeMode
  pub entitled_ecosystems : Option (List String)

abbrev entitled_ttl : Option EntitlementRow → ℕ
entitled_ttl none = 300
entitled_ttl (some row) = row.cache_ttl_seconds

abbrev entitled_mode : Option EntitlementRow → ServeMode
entitled_mode none = redirect
entitled_mode (some row) = if str_eq row.serve_mode "pull" then pull else redirect

abbrev entitled_to : Option EntitlementRow → Option (List String)
entitled_to none = none
entitled_to (some row) = row.allowed_ecosystems

abbrev pub context_of : List EntitlementRow → TokenRow → CheckContext
context_of entitlements row =
    let entitlement =
      find (λ (e : EntitlementRow). str_eq e.tenant_id row.tenant_id) entitlements in
    record {
      token_row = row;
      default_cache_ttl = entitled_ttl entitlement;
      serve_mode = entitled_mode entitlement;
      entitled_ecosystems = entitled_to entitlement;
    }

abbrev pub is_permitted : Option (List String) → String → Bool
is_permitted none ecosystem = true
is_permitted (some ecosystems) ecosystem = any (str_eq ecosystem) ecosystems

-- the answers
abbrev pub invalid_token : CheckOutcome
invalid_token = record {
  decision = block;
  reason = "invalid_token";
  detail = "Token not found, expired, or has been revoked";
  cache_ttl_seconds = 0;
  serve_mode = unspecified;
  tenant_id = "";
  project_id = "";
}

abbrev pub outcome_for :
    CheckContext → Verdict → (reason detail : String) → ℕ → ServeMode → CheckOutcome
outcome_for c decision reason detail ttl mode = record {
  decision = decision;
  reason = reason;
  detail = detail;
  cache_ttl_seconds = ttl;
  serve_mode = mode;
  tenant_id = c.token_row.tenant_id;
  project_id = c.token_row.project_id;
}

abbrev pub Checked : Type 0 → Type 0
Checked N = CheckOutcome × List (RecordedCheck N)

module _ {N : Type 0} where
  abbrev event_for :
      CheckContext → Verdict → String → ServeMode → List (CollectedViolation N) → RecordedCheck N
  event_for c decision reason mode violations = record {
    tenant_id = c.token_row.tenant_id;
    project_id = c.token_row.project_id;
    project_token_id = c.token_row.id;
    decision = decision;
    reason = reason;
    serve_mode = mode;
    violations = violations;
  }

  abbrev pub not_permitted : CheckContext → String → Checked N
  not_permitted c ecosystem = (
    outcome_for c block "ecosystem_not_permitted"
        (concat (ecosystem ∷ " is not available on your current plan" ∷ [])) c.default_cache_ttl
        unspecified,
    [],
  )

  abbrev pub metadata_request : CheckContext → Checked N
  metadata_request c = (
    outcome_for c allow "metadata_request" "Package metadata request — no version to evaluate"
        c.default_cache_ttl c.serve_mode,
    event_for c allow "metadata_request" c.serve_mode [] ∷ [],
  )

  abbrev pub no_policy : CheckContext → Checked N
  no_policy c = (
    outcome_for c block "no_policy" "No active policy configured for this project or tenant" 0
        unspecified,
    event_for c block "no_policy" unspecified [] ∷ [],
  )

  abbrev pub evaluated : CheckContext → EvaluatedPolicyDecision N → Checked N
  evaluated c d = (
    outcome_for c d.decision d.reason d.detail d.cache_ttl d.serve_mode,
    event_for c d.decision d.reason d.serve_mode d.collected_violations ∷ [],
  )

module _ {N : Type 0} ⦃js : JsNumber N⦄ where
  -- the snapshots are loaded if any connector supports the request
  abbrev if_any : List String → List (ConnectorSnapshot N) → List (ConnectorSnapshot N)
  if_any [] snapshots = []
  if_any (_ ∷ _) snapshots = snapshots

  -- a supported connector without a snapshot is given the unavailable one
  abbrev pub has_snapshot : String → List (ConnectorSnapshot N) → Bool
  has_snapshot key snapshots = any (λ s. str_eq s.connector_key key) snapshots

  unfoldable pub complete_snapshots :
      List String → List (ConnectorSnapshot N) → List (ConnectorSnapshot N)
  complete_snapshots [] snapshots = snapshots
  complete_snapshots (key ∷ keys) snapshots =
      complete_snapshots keys (
        if has_snapshot key snapshots
        then snapshots
        else snapshots ++ unavailable_snapshot key ∷ [])

  unfoldable pub collect_connector_evaluation_fields :
      World N → (project_id : String) → CanonicalPackageIdentity → (version : String) → Fields N
  collect_connector_evaluation_fields w project_id identity version =
      let supported = w.supported_connectors identity in
      let release = w.release identity in
      let stored = if_any supported (w.stored_snapshots project_id identity) in
      resolve_fields w.now_text (complete_snapshots supported stored) (record {
        ecosystem = identity.ecosystem;
        pkg = identity.pkg;
        version = version;
        version_published_at = release.version_published_at;
        version_age_days = release.version_age_days;
        latest_version_published_at = release.latest_version_published_at;
      })

  unfoldable pub load_check_context :
      World N → VerifiedProxyContext → CheckRequest → Option CheckContext
  load_check_context w proxy req =
      elim (load_authorized_project_token w.hash_project_token w.projects w.tokens proxy
        req.project_token w.now) [ none ↦ none | some row ↦ some (context_of w.entitlements row) ]

  -- the rules of the effective policy decide
  unfoldable pub check_version :
      World N → CheckContext → CanonicalPackageIdentity → (version : String) → Eval (Checked N)
  check_version w c identity version =
      let project_id = c.token_row.project_id in
      let policy = load_effective_policy w.policies c.token_row.tenant_id project_id w.now in
      elim policy.all_rules [
        | [] ↦ ok (no_policy c)
        | r ∷ rs ↦
            evaluate_policy_decision (r ∷ rs)
              (collect_connector_evaluation_fields w project_id identity version)
              c.default_cache_ttl c.serve_mode
            >>= λ d. ok (evaluated c d)
      ]

  -- a request without a version is for the package's metadata
  abbrev pub check_optional_version :
      World N → CheckContext → CanonicalPackageIdentity → Option String → Eval (Checked N)
  check_optional_version w c identity none = ok (metadata_request c)
  check_optional_version w c identity (some version) = check_version w c identity version

  abbrev pub check_identity : World N → CheckContext → CanonicalPackageIdentity → Eval (Checked N)
  check_identity w c identity =
      if is_permitted c.entitled_ecosystems identity.ecosystem
      then check_optional_version w c identity identity.version
      else ok (not_permitted c identity.ecosystem)

  unfoldable pub handle_check : World N → VerifiedProxyContext → CheckRequest → Eval (Checked N)
  unfolding load_check_context check_version
  handle_check w proxy req = elim (load_check_context w proxy req) [
    | none ↦ ok (invalid_token, [])
    | some c ↦ check_identity w c (
        canonicalize_package_identity w.to_lower_case
          (record { ecosystem = req.ecosystem; pkg = req.pkg; version = some req.version }))
  ]
