-- ===== src/Connectors/Osv/Parse/Summary.antt =====
-- The summary of an answer agrees with its findings.
use dep_customs.Prelude.{
  ℕ, ◌+◌, ◌≤◌, String, ◌≡◌, ◌⊎◌, refl, sym, subst, ◌∙◌, Bool, true, ◌||◌, List, [], ◌∷◌, ◌++◌, map,
  Option, none, some, inl, inr, arith, if◌then◌else◌, Bool-cases, In, length, any, ltb, ◌==◌,
}
use dep_customs.Connectors.Results.{
  VulnSeverity, critical, high, medium, low, no_severity, severity_index, worse, SeverityCounts,
  VulnerabilitySummary, ConnectorResult, ConnectorFinding, highest_from, highest_finding_severity,
}
use dep_customs.Connectors.Osv.Cvss.{Score}
use dep_customs.Connectors.Osv.Fixes.{pick_highest_version}
use dep_customs.Connectors.Osv.Parse.{
  OsvVuln, ParsedVuln, no_aggregate, Aggregate, aggregate, count_severity, finding_of, parsed_vulns,
  parse_osv_response, pushed,
}

worse_bounds :
    (s t : VulnSeverity)
    → (severity_index (worse s t) ≤ severity_index s)
      × (severity_index (worse s t) ≤ severity_index t)
      × ((worse s t ≡ s) ⊎ (worse s t ≡ t))
unfolding worse
worse_bounds s t = elim (Bool-cases (ltb (severity_index t) (severity_index s))) [
  | inl e ↦ (ground arith, ground arith, inr (rw e refl))
  | inr e ↦ (ground arith, ground arith, inl (rw e refl))
]

module _ {N : Type 0} where
  abbrev pub vulnerability_of : ConnectorResult N → Option VulnerabilitySummary
  vulnerability_of r = elim r.summary [ none ↦ none | some s ↦ s.vulnerability ]

  -- how many findings have a severity
  abbrev pub count_of : VulnSeverity → List (ConnectorFinding N) → ℕ
  count_of s [] = 0
  count_of s (f ∷ fs) =
      (if severity_index f.severity == severity_index s then 1 else 0) + count_of s fs

  -- No finding is worse, and one is as bad, or there are none and the severity is none.
  abbrev pub IsWorst : VulnSeverity → List (ConnectorFinding N) → Type 0
  IsWorst s fs =
      ((f : ConnectorFinding N) → In f fs → severity_index s ≤ severity_index f.severity)
      × ((s ≡ no_severity) ⊎ ((f : ConnectorFinding N) × In f fs × (f.severity ≡ s)))

  highest_from-IsWorst :
      (s : VulnSeverity) (fs : List (ConnectorFinding N))
      → (severity_index (highest_from s fs) ≤ severity_index s)
        × ((f : ConnectorFinding N)
            → In f fs
            → severity_index (highest_from s fs) ≤ severity_index f.severity)
        × ((highest_from s fs ≡ s)
            ⊎ ((f : ConnectorFinding N) × In f fs × (f.severity ≡ highest_from s fs)))
  unfolding highest_from
  highest_from-IsWorst s [] = (omega arith, (λ f i. absurd i), inl refl)
  highest_from-IsWorst s (g ∷ fs) =
      let (below, all, at) = highest_from-IsWorst (worse s g.severity) fs in
      let (a, b, w) = worse_bounds s g.severity in
      (
        omega (arith, below, a),
        (λ f i. elim i [ inl q ↦ rw q (omega (arith, below, b)) | inr j ↦ all f j ]),
        elim at [
          | inr (f, j, q) ↦ inr (f, inr j, q)
          | inl q ↦ elim w [ inl r ↦ inl (q ∙ r) | inr r ↦ inr (g, inl refl, sym (q ∙ r)) ]
        ],
      )

module _ {N : Type 0} (number : Score → N) (iso : ℕ → String) where
  aggregate-max :
      (state : Aggregate) (vulns : List ParsedVuln)
      → (aggregate state vulns).max_severity
        ≡ highest_from state.max_severity (map (finding_of number iso) vulns)
  unfolding aggregate highest_from finding_of
  aggregate-max state [] = refl
  aggregate-max state (v ∷ vulns) =
      aggregate-max
        (record {
          max_severity = worse state.max_severity v.severity;
          fix_available = if v.fix.fix_available then true else state.fix_available;
          fix_versions = state.fix_versions ++ pushed v.fix.fix_version;
        })
        vulns

  count-eq :
      (s : VulnSeverity) (vulns : List ParsedVuln)
      → count_severity s vulns ≡ count_of s (map (finding_of number iso) vulns)
  unfolding count_severity finding_of
  count-eq s [] = refl
  count-eq s (v ∷ vulns) = ground (arith, count-eq s vulns)

  length-findings :
      (vulns : List ParsedVuln) → length vulns ≡ length (map (finding_of number iso) vulns)
  length-findings [] = refl
  length-findings (v ∷ vulns) = omega (arith, length-findings vulns)

aggregate-available :
    (state : Aggregate) (vulns : List ParsedVuln)
    → (aggregate state vulns).fix_available
      ≡ (state.fix_available || any (λ (v : ParsedVuln). v.fix.fix_available) vulns)
unfolding aggregate
aggregate-available state [] = ground arith
aggregate-available state (v ∷ vulns) = ground (
  arith,
  aggregate-available
      (record {
        max_severity = worse state.max_severity v.severity;
        fix_available = if v.fix.fix_available then true else state.fix_available;
        fix_versions = state.fix_versions ++ pushed v.fix.fix_version;
      })
      vulns,
)

-- The summary is there and agrees with the findings and with the advisories of the package.
abbrev pub IsSummary : {N : Type 0} → ConnectorResult N → List ParsedVuln → Type 0
IsSummary r parsed =
    (s : VulnerabilitySummary) × (counts : SeverityCounts) × (vulnerability_of r ≡ some s)
    × (s.severity_counts ≡ some counts)
    × (s.finding_count ≡ length r.findings)
    × IsWorst s.max_severity r.findings
    × (highest_finding_severity r ≡ s.max_severity)
    × (counts.critical_count ≡ count_of critical r.findings)
    × (counts.high_count ≡ count_of high r.findings)
    × (counts.medium_count ≡ count_of medium r.findings)
    × (counts.low_count ≡ count_of low r.findings)
    × (s.fix_available ≡ any (λ (v : ParsedVuln). v.fix.fix_available) parsed)

-- The summary of an answer agrees with its findings: the number of findings; the worst severity, none
-- being worse and one as bad unless there are none, which is also what the cache takes for the
-- worst; the findings of each severity; and whether a fix is available for one of the advisories.
pub parse_osv_response-IsSummary :
    {N V : Type 0} (number : Score → N) (iso : ℕ → String) (date_of : String → ℕ)
    (to_lower_case : String → String) (clean : String → Option V) (gt : V → V → Bool)
    (vulns : Option (List OsvVuln)) (pkg ecosystem : String)
    → IsSummary
        (parse_osv_response number iso date_of to_lower_case clean gt vulns pkg ecosystem)
        (parsed_vulns date_of to_lower_case vulns pkg ecosystem)
unfolding parse_osv_response highest_finding_severity
parse_osv_response-IsSummary number iso date_of to_lower_case clean gt vulns pkg ecosystem =
    let parsed = parsed_vulns date_of to_lower_case vulns pkg ecosystem in
    let total = aggregate no_aggregate parsed in
    let findings = map (finding_of number iso) parsed in
    let max = aggregate-max number iso no_aggregate parsed in
    let (_, all, at) = highest_from-IsWorst no_severity findings in
    let counts : SeverityCounts = record {
      critical_count = count_severity critical parsed;
      high_count = count_severity high parsed;
      medium_count = count_severity medium parsed;
      low_count = count_severity low parsed;
    } in
    (
      record {
        max_severity = total.max_severity;
        finding_count = length parsed;
        fix_available = total.fix_available;
        best_fix_version = pick_highest_version clean gt total.fix_versions;
        severity_counts = some counts;
      },
      counts,
      refl,
      refl,
      length-findings number iso parsed,
      subst (λ s. IsWorst s findings) (sym max) (all, at),
      sym max,
      count-eq number iso critical parsed,
      count-eq number iso high parsed,
      count-eq number iso medium parsed,
      count-eq number iso low parsed,
      aggregate-available no_aggregate parsed,
    )
