-- ===== src/Connectors/Osv/Parse/Tests.antt =====
-- An advisory of lodash that also affects a second package.
use dep_customs.Prelude.{
  ℕ, ◌≡◌, refl, String, true, false, List, [], ◌∷◌, Option, none, some, In, arith, ltb, size, inl,
  inr, str_eq, Bool-cases,
}
use dep_customs.Connectors.Osv.Vectors.{parse_cvss_segments}
use dep_customs.Connectors.Osv.Cvss.{
  Score, number, not_a_number, OsvSeverityEntry, whole, compute_cvss_v3_base_score,
  cvss_score_to_severity, extract_numeric_score, isc_base, weights_of, at_most,
}
use dep_customs.Connectors.Osv.Fixes.{
  OsvRangeEvent, OsvAffected, extract_fix_info, pick_highest_version,
}
use dep_customs.Connectors.Osv.Cvss.Impacts.{IsPlain}
use dep_customs.Connectors.Osv.Cvss.Severities.{IsScored, compute_cvss_v3_base_score-IsScored}
use dep_customs.Connectors.Osv.Fixes.Own.{extract_fix_info-own}
use dep_customs.Connectors.Osv.Fixes.Highest.{IsOrder, pick_highest_version-highest}
use dep_customs.Connectors.Osv.Parse.Summary.{IsSummary, parse_osv_response-IsSummary}
use dep_customs.Connectors.Osv.Parse.{OsvVuln, parse_osv_response, parsed_vulns}

abbrev remote : String
remote = "CVSS:3.1/AV:N/AC:L/PR:N/UI:N/S:U/C:H/I:H/A:H"

-- scores of the specification's calculator, and a score that is written out
scored :
    (extract_numeric_score remote ≡ number (record { digits = 98; places = 1 }))
    × (extract_numeric_score "CVSS:3.1/AV:N/AC:L/PR:N/UI:R/S:C/C:L/I:L/A:N"
        ≡ number (record { digits = 61; places = 1 }))
    × (extract_numeric_score "CVSS:3.1/AV:constructor/AC:L/PR:N/UI:N/S:U/C:H/I:H/A:H"
        ≡ not_a_number)
    × (extract_numeric_score " 7.2 (high)" ≡ number (record { digits = 72; places = 1 }))
unfolding extract_numeric_score compute_cvss_v3_base_score weights_of isc_base at_most
    dep_customs.Connectors.Osv.Cvss.direct_score dep_customs.Connectors.Osv.Cvss.parse_float
    dep_customs.Connectors.Osv.Cvss.signed dep_customs.Connectors.Osv.Cvss.scan_digits
    dep_customs.Connectors.Osv.Cvss.scan_fraction dep_customs.Connectors.Osv.Cvss.scan_exponent
    dep_customs.Connectors.Osv.Cvss.scaled dep_customs.Connectors.Osv.Cvss.scope_of
    dep_customs.Connectors.Osv.Cvss.round_up dep_customs.Connectors.Osv.Cvss.unchanged_score
    dep_customs.Connectors.Osv.Cvss.changed_score
    dep_customs.Connectors.Osv.Cvss.exploitability_score dep_customs.Connectors.Osv.Vectors.metric
    dep_customs.Connectors.Osv.Vectors.assign_segments
    dep_customs.Connectors.Osv.Vectors.split_slash dep_customs.Connectors.Osv.Vectors.assign_segment
    dep_customs.Connectors.Osv.Vectors.cut_colon dep_customs.Connectors.Osv.Vectors.assign
    parse_cvss_segments dep_customs.Connectors.Osv.Cvss.has_nan_impact
    dep_customs.Connectors.Osv.Cvss.has_nan_exploitability
    dep_customs.Connectors.Osv.Cvss.base_score
scored = (refl, refl, refl, refl)

abbrev light : String
light = "CVSS:3/C:L"

light-IsPlain : IsPlain (parse_cvss_segments light)
unfolding parse_cvss_segments dep_customs.Connectors.Osv.Vectors.assign_segments
    dep_customs.Connectors.Osv.Vectors.split_slash dep_customs.Connectors.Osv.Vectors.assign_segment
    dep_customs.Connectors.Osv.Vectors.cut_colon dep_customs.Connectors.Osv.Vectors.assign
light-IsPlain key value e = elim (Bool-cases (str_eq "CVSS" key)) [
  | inl a ↦ let k = rw a at e in let q : "3" ≡ value = cc k in rw (← q) refl
  | inr a ↦ elim (Bool-cases (str_eq "C" key)) [
    | inl b ↦ let k = rw (a, b) at e in let q : "L" ≡ value = cc k in rw (← q) refl
    | inr b ↦ let k = rw (a, b) at e in cc k
  ]
]

compute_cvss_v3_base_score-IsScored_example :
    IsScored (parse_cvss_segments light) (compute_cvss_v3_base_score light)
compute_cvss_v3_base_score-IsScored_example =
    compute_cvss_v3_base_score-IsScored light light-IsPlain

abbrev event : Option String → Option String → OsvRangeEvent
event fixed last = record { introduced = none; fixed = fixed; last_affected = last }

abbrev affected : List OsvAffected
affected =
    record {
      ecosystem = "npm";
      name = "lodash-compat";
      ranges = some (record { type = "SEMVER"; events = event (some "9.9.9") none ∷ [] } ∷ []);
    }
    ∷ record {
      ecosystem = "npm";
      name = "lodash";
      ranges = some (
          record { type = "GIT"; events = event (some "abc") none ∷ [] }
          ∷ record {
            type = "SEMVER";
            events = event none none ∷ event (some "4.17.21") none ∷ event none (some "5") ∷ [];
          }
          ∷ []);
    }
    ∷ []

extract_fix_info-own_example :
    extract_fix_info (some affected) "lodash" "npm"
    ≡ record { fix_version = some "4.17.21"; fix_available = true }
extract_fix_info-own_example = extract_fix_info-own affected "lodash" "npm"

-- versions that are their length
abbrev by_length : String → Option ℕ
by_length v = some (size v)

by_length-IsOrder : IsOrder (λ (a b : ℕ). ltb b a)
by_length-IsOrder = record {
  asymmetric = λ a b h. ground arith;
  transitive = λ a b c h k. ground arith;
}

pick_highest_version-highest_example :
    (best : String) × (c : ℕ) × (pick_highest_version by_length
        (λ a b. ltb b a)
        ("1" ∷ "123" ∷ "12" ∷ [])
      ≡ some best)
    × In best ("1" ∷ "123" ∷ "12" ∷ [])
    × (by_length best ≡ some c)
    × ((w : String) (d : ℕ)
        → In w ("1" ∷ "123" ∷ "12" ∷ [])
        → by_length w ≡ some d
        → ltb c d ≡ false)
pick_highest_version-highest_example =
    pick_highest_version-highest by_length (λ a b. ltb b a) "1" ("123" ∷ "12" ∷ [])
      by_length-IsOrder ((1, refl), ((3, refl), ((2, refl), tt)))

abbrev advisories : List OsvVuln
advisories =
    record {
      id = "GHSA-1";
      aliases = some ("CVE-1" ∷ "GHSA-1" ∷ []);
      summary = some "pollution";
      severity = some (record { type = "CVSS_V3"; score = remote } ∷ []);
      affected = some affected;
      references = none;
      cwe_ids = none;
      published = some "2020-01-01";
      modified = none;
      withdrawn = none;
    }
    ∷ []

abbrev same_text : String → String
same_text s = s

abbrev score_digits : Score → ℕ
score_digits (number d) = d.digits
score_digits not_a_number = 0

parse_osv_response-IsSummary_example :
    IsSummary
      (parse_osv_response score_digits
        (λ _. "")
        size
        same_text
        by_length
        (λ a b. ltb b a)
        (some advisories)
        "lodash"
        "npm")
      (parsed_vulns size same_text (some advisories) "lodash" "npm")
parse_osv_response-IsSummary_example =
    parse_osv_response-IsSummary score_digits (λ _. "") size same_text by_length (λ a b. ltb b a)
      (some advisories) "lodash" "npm"
