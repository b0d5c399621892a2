-- ===== src/Connectors/Results.antt =====
-- The contracts of connectors/types.ts: the findings of a connector, its summary blocks, and the
-- summaries that connectors/cache.ts makes of a result. Times are milliseconds.
use dep_customs.Prelude.{
  ℕ, String, Bool, false, List, [], ◌∷◌, Option, none, some, length, or_else, ltb, if◌then◌else◌,
}
use dep_customs.Policy.Value.{Value}

pub data VulnSeverity : Type 0 where
  critical high medium low no_severity : VulnSeverity

unfoldable pub severity_index : VulnSeverity → ℕ
severity_index critical = 0
severity_index high = 1
severity_index medium = 2
severity_index low = 3
severity_index no_severity = 4

pub record SeverityCounts : Type 0 where
  pub critical_count : ℕ
  pub high_count : ℕ
  pub medium_count : ℕ
  pub low_count : ℕ

pub record VulnerabilitySummary : Type 0 where
  pub max_severity : VulnSeverity
  pub finding_count : ℕ
  pub fix_available : Bool
  pub best_fix_version : Option String
  pub severity_counts : Option SeverityCounts

pub record RiskSummary : Type 0 where
  pub tier : VulnSeverity
  pub score : Option ℕ

pub record RemediationSummary : Type 0 where
  pub available : Bool
  pub best : Option String

-- The block of findings is its count.
pub record ConnectorResultSummary (N : Type 0) : Type 0 where
  pub risk : Option RiskSummary
  pub findings : Option ℕ
  pub remediation : Option RemediationSummary
  pub vulnerability : Option VulnerabilitySummary
  pub blocks : List (String × Value N)

pub record ConnectorFinding (N : Type 0) : Type 0 where
  pub finding_id : String
  pub severity : VulnSeverity
  pub title : Option String
  pub published_at : Option ℕ
  pub attributes : List (String × Value N)

-- the members of a result of the older kind, all of which it has but the counts
pub record LegacyVulnerability : Type 0 where
  pub max_severity : VulnSeverity
  pub vuln_count : ℕ
  pub fix_available : Bool
  pub best_fix_version : Option String
  pub severity_counts : Option SeverityCounts

pub record ConnectorResult (N : Type 0) : Type 0 where
  pub findings : List (ConnectorFinding N)
  pub summary : Option (ConnectorResultSummary N)
  pub ttl_seconds : Option ℕ
  pub legacy : Option LegacyVulnerability

unfoldable pub worse : VulnSeverity → VulnSeverity → VulnSeverity
worse highest s = if ltb (severity_index s) (severity_index highest) then s else highest

module _ {N : Type 0} where
  unfoldable pub highest_from : VulnSeverity → List (ConnectorFinding N) → VulnSeverity
  highest_from highest [] = highest
  highest_from highest (f ∷ fs) = highest_from (worse highest f.severity) fs

  unfoldable pub highest_finding_severity : ConnectorResult N → VulnSeverity
  highest_finding_severity result = highest_from no_severity result.findings

  abbrev block :
      {A : Type 0}
      → (ConnectorResultSummary N → Option A)
      → Option (ConnectorResultSummary N)
      → Option A
  block get none = none
  block get (some summary) = get summary

  -- the summary of a result that has no block for vulnerabilities
  unfoldable pub derived_vulnerability :
      ConnectorResult N → Option LegacyVulnerability → VulnerabilitySummary
  derived_vulnerability result (some legacy) = record {
    max_severity = legacy.max_severity;
    finding_count = legacy.vuln_count;
    fix_available = legacy.fix_available;
    best_fix_version = legacy.best_fix_version;
    severity_counts = legacy.severity_counts;
  }
  derived_vulnerability result none = record {
    max_severity = highest_finding_severity result;
    finding_count = length result.findings;
    fix_available = false;
    best_fix_version = none;
    severity_counts = none;
  }

  unfoldable pub vulnerability_summary_from_result : ConnectorResult N → VulnerabilitySummary
  vulnerability_summary_from_result result =
      or_else (block (λ s. s.vulnerability) result.summary)
        (derived_vulnerability result result.legacy)

  unfoldable pub risk_summary_from_result : ConnectorResult N → VulnerabilitySummary → RiskSummary
  risk_summary_from_result result vulnerability =
      or_else (block (λ s. s.risk) result.summary)
        (record { tier = vulnerability.max_severity; score = none })

  unfoldable pub findings_summary_from_result : ConnectorResult N → ℕ
  findings_summary_from_result result =
      or_else (block (λ s. s.findings) result.summary)
        (elim (block (λ s. s.vulnerability) result.summary) [
          | some v ↦ v.finding_count
          | none ↦ length result.findings
        ])

  unfoldable pub remediation_summary_from_result :
      ConnectorResult N → VulnerabilitySummary → RemediationSummary
  remediation_summary_from_result result vulnerability =
      or_else (block (λ s. s.remediation) result.summary)
        (record { available = vulnerability.fix_available; best = vulnerability.best_fix_version })
