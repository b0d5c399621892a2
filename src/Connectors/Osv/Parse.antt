-- ===== src/Connectors/Osv/Parse.antt =====
-- connectors/osv/parse.ts: one advisory, and the answer for a package. The dates of the JavaScript
-- library are parameters: `date_of` reads one, `iso` writes one. `number` makes a number of a score.
pub mod Summary
pub mod Tests
use mathlib.Core.Option
use dep_customs.Prelude.{
  lookup, ℕ, String, Bool, true, false, not, List, [], ◌∷◌, ◌++◌, map, Option, none, some, or_else,
  or_option, str_eq, filter, any, length, ◌==◌, if◌then◌else◌,
}
use dep_customs.Policy.Value.{Value, undefined, null, str, num, bool, arr, obj, Items, Members}
use dep_customs.Connectors.Results.{
  VulnSeverity, critical, high, medium, low, no_severity, severity_index, worse, ConnectorResult,
  ConnectorFinding,
}
use dep_customs.Connectors.Osv.Vectors.{
  Entry, absent, own, inherited, Exploitability, parse_cvss_vector,
}
use dep_customs.Connectors.Osv.Cvss.{
  Score, OsvSeverityEntry, CvssVersion, v3, v4, pick_best_cvss, cvss_score_to_severity,
}
use dep_customs.Connectors.Osv.Fixes.{
  OsvAffected, OsvReference, FixInfo, extract_fix_info, extract_reference_urls,
  pick_highest_version,
}

pub record OsvVuln : Type 0 where
  pub id : String
  pub aliases : Option (List String)
  pub summary : Option String
  pub severity : Option (List OsvSeverityEntry)
  pub affected : Option (List OsvAffected)
  pub references : Option (List OsvReference)
  pub cwe_ids : Option (List String)
  pub published : Option String
  pub modified : Option String
  pub withdrawn : Option String

pub record ParsedVuln : Type 0 where
  pub osv_id : String
  pub aliases : List String
  pub summary : Option String
  pub severity : VulnSeverity
  pub cvss_v3_score : Option Score
  pub cvss_v3_vector : Option String
  pub cvss_v4_score : Option Score
  pub cvss_v4_vector : Option String
  pub exploitability : Exploitability
  pub fix : FixInfo
  pub fix_reference_urls : List String
  pub cwe_ids : List String
  pub has_exploit_evidence : Bool
  pub evidence_urls : List String
  pub published_at : Option ℕ
  pub modified_at : Option ℕ
  pub withdrawn_at : Option ℕ
  pub raw_vuln : OsvVuln

-- `[...new Set(ids)]`: the first of equal texts stays
unfoldable pub distinct : (seen : List String) → List String → List String
distinct seen [] = []
distinct seen (id ∷ ids) =
    let rest = distinct (id ∷ seen) ids in
    if any (str_eq id) seen then distinct seen ids else id ∷ rest

abbrev in_v3 : {A : Type 0} → CvssVersion → Option A → Option A
in_v3 v3 a = a
in_v3 other a = none

abbrev in_v4 : {A : Type 0} → CvssVersion → Option A → Option A
in_v4 v4 a = a
in_v4 other a = none

abbrev date_if_any : (String → ℕ) → Option String → Option ℕ
date_if_any date_of none = none
date_if_any date_of (some t) = if str_eq t "" then none else some (date_of t)

unfoldable pub parse_single_vuln :
    (date_of : String → ℕ) → OsvVuln → (pkg osv_ecosystem : String) → ParsedVuln
parse_single_vuln date_of vuln pkg osv_ecosystem =
    let best = pick_best_cvss (or_else vuln.severity []) in
    let v3_vector = in_v3 best.version best.vector in
    let v4_vector = in_v4 best.version best.vector in
    record {
      osv_id = vuln.id;
      aliases =
          filter (λ (id : String). not (str_eq id vuln.id))
            (distinct [] (vuln.id ∷ or_else vuln.aliases []));
      summary = vuln.summary;
      severity = cvss_score_to_severity best.score;
      cvss_v3_score = in_v3 best.version (some best.score);
      cvss_v3_vector = v3_vector;
      cvss_v4_score = in_v4 best.version (some best.score);
      cvss_v4_vector = v4_vector;
      exploitability = parse_cvss_vector (or_option v3_vector v4_vector);
      fix = extract_fix_info vuln.affected pkg osv_ecosystem;
      fix_reference_urls = extract_reference_urls vuln.references "FIX";
      cwe_ids = or_else vuln.cwe_ids [];
      has_exploit_evidence =
          any (λ (r : OsvReference). str_eq r.type "EVIDENCE") (or_else vuln.references []);
      evidence_urls = extract_reference_urls vuln.references "EVIDENCE";
      published_at = date_if_any date_of vuln.published;
      modified_at = date_if_any date_of vuln.modified;
      withdrawn_at = date_if_any date_of vuln.withdrawn;
      raw_vuln = vuln;
    }

unfoldable pub count_severity : VulnSeverity → List ParsedVuln → ℕ
count_severity s vulns =
    length (filter (λ (v : ParsedVuln). severity_index v.severity == severity_index s) vulns)

-- the variables of the loop over the advisories
pub record Aggregate : Type 0 where
  pub max_severity : VulnSeverity
  pub fix_available : Bool
  pub fix_versions : List String

abbrev pub pushed : Option String → List String
pushed none = []
pushed (some v) = if str_eq v "" then [] else v ∷ []

unfoldable pub aggregate : Aggregate → List ParsedVuln → Aggregate
aggregate state [] = state
aggregate state (v ∷ vulns) =
    aggregate
      (record {
        max_severity = worse state.max_severity v.severity;
        fix_available = if v.fix.fix_available then true else state.fix_available;
        fix_versions = state.fix_versions ++ pushed v.fix.fix_version;
      })
      vulns

module _ {N : Type 0} (number : Score → N) (iso : ℕ → String) where
  text_or_null : Option String → Value N
  text_or_null none = null
  text_or_null (some t) = str t

  score_or_null : Option Score → Value N
  score_or_null none = null
  score_or_null (some d) = num (number d)

  -- An inherited function is left out of the JSON that is stored, as undefined is; the prototype
  -- itself is stored as an empty object.
  entry_or_null : Entry String → Value N
  entry_or_null absent = null
  entry_or_null (own t) = str t
  entry_or_null (inherited name) = if str_eq name "__proto__" then obj Members.none else undefined

  texts : List String → Items N
  texts [] = Items.nil
  texts (t ∷ ts) = Items.item (str t) (texts ts)

  unfoldable pub attributes_of : ParsedVuln → List (String × Value N)
  unfolding text_or_null entry_or_null score_or_null texts
  attributes_of v =
      ("osv_id", str v.osv_id)
      ∷ ("aliases", arr (texts v.aliases))
      ∷ ("cvss_v3_score", score_or_null v.cvss_v3_score)
      ∷ ("cvss_v3_vector", text_or_null v.cvss_v3_vector)
      ∷ ("cvss_v4_score", score_or_null v.cvss_v4_score)
      ∷ ("cvss_v4_vector", text_or_null v.cvss_v4_vector)
      ∷ ("attack_vector", entry_or_null v.exploitability.attack_vector)
      ∷ ("attack_complexity", entry_or_null v.exploitability.attack_complexity)
      ∷ ("privileges_required", entry_or_null v.exploitability.privileges_required)
      ∷ ("user_interaction", entry_or_null v.exploitability.user_interaction)
      ∷ ("fix_version", text_or_null v.fix.fix_version)
      ∷ ("fix_available", bool v.fix.fix_available)
      ∷ ("fix_reference_urls", arr (texts v.fix_reference_urls))
      ∷ ("cwe_ids", arr (texts v.cwe_ids))
      ∷ ("has_exploit_evidence", bool v.has_exploit_evidence)
      ∷ ("evidence_urls", arr (texts v.evidence_urls))
      ∷ ("withdrawn_at", text_or_null (Option.map iso v.withdrawn_at))
      ∷ []

  unfoldable pub finding_of : ParsedVuln → ConnectorFinding N
  finding_of v = record {
    finding_id = v.osv_id;
    severity = v.severity;
    title = v.summary;
    published_at = v.published_at;
    attributes = attributes_of v;
  }

-- OSV_ECOSYSTEM_NAMES
unfoldable pub osv_ecosystem_name : (to_lower_case : String → String) → String → String
osv_ecosystem_name to_lower_case ecosystem =
    or_else (lookup (to_lower_case ecosystem) (("npm", "npm") ∷ ("pypi", "PyPI") ∷ [])) ecosystem

unfoldable pub parsed_vulns :
    (date_of : String → ℕ)
    → (to_lower_case : String → String) → Option (List OsvVuln)
    → (pkg ecosystem : String) → List ParsedVuln
parsed_vulns date_of to_lower_case vulns pkg ecosystem =
    map (λ vuln. parse_single_vuln date_of vuln pkg (osv_ecosystem_name to_lower_case ecosystem))
      (or_else vulns [])

abbrev pub no_aggregate : Aggregate
no_aggregate = record { max_severity = no_severity; fix_available = false; fix_versions = [] }

module _ {N V : Type 0} (number : Score → N) (iso : ℕ → String) (date_of : String → ℕ)
    (to_lower_case : String → String) (clean : String → Option V) (gt : V → V → Bool) where
  unfoldable pub parse_osv_response :
      Option (List OsvVuln) → (pkg ecosystem : String) → ConnectorResult N
  parse_osv_response vulns pkg ecosystem =
      let parsed = parsed_vulns date_of to_lower_case vulns pkg ecosystem in
      let total = aggregate no_aggregate parsed in
      record {
        findings = map (finding_of number iso) parsed;
        summary = some (record {
          risk = none;
          findings = none;
          remediation = none;
          vulnerability = some (record {
            max_severity = total.max_severity;
            finding_count = length parsed;
            fix_available = total.fix_available;
            best_fix_version = pick_highest_version clean gt total.fix_versions;
            severity_counts = some (record {
              critical_count = count_severity critical parsed;
              high_count = count_severity high parsed;
              medium_count = count_severity medium parsed;
              low_count = count_severity low parsed;
            });
          });
          blocks = [];
        });
        ttl_seconds = none;
        legacy = none;
      }
