-- ===== src/Connectors/Osv/Cvss/Severities.antt =====
-- A vector is given no severity just if it shows no impact.
use Prim.Native.Nat.{◌^◌}
use native.Mathlib.Nat.{lt_trans}
use dep_customs.Prelude.{
  ℕ, zero, suc, ◌+◌, ◌-◌, ◌*◌, ◌/◌, ◌≤◌, ◌<◌, String, ◌≡◌, ◌≢◌, ◌↔◌, refl, Bool, true, ◌||◌, List,
  inl, inr, arith, Bool-cases, leb, ◌==◌, str_eq, leb→le, le→leb, all, In, all-In,
}
use dep_customs.Connectors.Results.{no_severity}
use dep_customs.Connectors.Osv.Vectors.{parse_cvss_segments}
use dep_customs.Connectors.Osv.Cvss.{
  Decimal, Score, number, Weights, weights_of, isc_base, unchanged_score, changed_score, min,
  exploitability_score, base_score, scope_of, round_up, compute_cvss_v3_base_score,
  cvss_score_to_severity, at_least, at_most, whole,
}
use dep_customs.Connectors.Osv.Cvss.Scores.{IsRoundedUp, round_up-IsRoundedUp}
use dep_customs.Connectors.Osv.Cvss.Impacts.{
  impacts, metric-impacts, IsPlain, HasNoImpact, has_nan_plain, isc_base-HasNoImpact,
}

-- the impact on the scope of a change, in units of 10 ^ -92
abbrev changed_impact : (c i a : ℕ) → ℕ
changed_impact c i a =
    let isc = 1000000 - (100 - c) * (100 - i) * (100 - a) in
    752 * (isc - 29000) * 10 ^ 84 - 325 * (isc - 20000) ^ 15

-- it is none, or more than a hundredth
abbrev is_felt : (c i a : ℕ) → Bool
is_felt c i a =
    (1000000 - (100 - c) * (100 - i) * (100 - a)) == 0 || leb (10 ^ 90) (changed_impact c i a)

all_felt : all (λ c. all (λ i. all (λ a. is_felt c i a) impacts) impacts) impacts ≡ true
all_felt = refl

felt : (c i a : ℕ) → In c impacts → In i impacts → In a impacts → is_felt c i a ≡ true
felt c i a hc hi ha =
    all-In (λ a. is_felt c i a) a impacts
      (all-In (λ i. all (λ a. is_felt c i a) impacts) i impacts
        (all-In (λ c. all (λ i. all (λ a. is_felt c i a) impacts) impacts) c impacts all_felt hc)
        hi)
      ha

-- the rounded score is more than 0 where the score is more than half a hundred-thousandth
rounded_pos :
    (unit score tenths : ℕ)
    → IsRoundedUp unit score tenths
    → unit / 2 < min score (unit * 1000000)
    → 0 < tenths
rounded_pos unit score zero r h = absurd (omega (arith, r.1, h))
rounded_pos unit score (suc t) r h = omega arith

unchanged_pos : (w : Weights) → isc_base w ≢ 0 → 50000 < unchanged_score w
unfolding unchanged_score
unchanged_pos w ne = ground arith

lt-min : (c a b : ℕ) → c < a → c < b → c < min a b
lt-min c a b h k = ground arith

changed-impact :
    (w : Weights)
    → changed_score w ≡ 108 * (changed_impact w.c w.i w.a + exploitability_score w * 10 ^ 82)
unfolding changed_score isc_base
changed-impact w = refl

felt_impact :
    (c i a : ℕ)
    → is_felt c i a ≡ true
    → 1000000 - (100 - c) * (100 - i) * (100 - a) ≢ 0
    → 10 ^ 90 ≤ changed_impact c i a
felt_impact c i a h ne = elim (Bool-cases ((1000000 - (100 - c) * (100 - i) * (100 - a)) == 0)) [
  | inl e ↦ absurd (ne (ground arith))
  | inr e ↦ leb→le (10 ^ 90) (changed_impact c i a) (rw e at h)
]

changed_pos :
    (parts : List (String × String))
    → isc_base (weights_of parts) ≢ 0
    → 10 ^ 90 < changed_score (weights_of parts)
unfolding isc_base weights_of
changed_pos parts ne =
    let w = weights_of parts in
    let much =
      felt_impact w.c w.i w.a
        (felt w.c w.i w.a (metric-impacts "C" parts) (metric-impacts "I" parts)
          (metric-impacts "A" parts))
        ne in
    omega (arith, changed-impact w, much)

base_score-positive :
    (parts : List (String × String))
    → isc_base (weights_of parts) ≢ 0
    → (0 < (base_score parts).digits) × (at_most 10 (base_score parts) ≡ true)
unfolding base_score at_most
base_score-positive parts felt =
    let w = weights_of parts in
    elim (Bool-cases (str_eq (scope_of parts) "U")) [
      | inl u ↦
          let r = round_up-IsRoundedUp (10 ^ 5) (unchanged_score w) (omega arith) in
          rw u (
            rounded_pos (10 ^ 5) (unchanged_score w) (round_up (10 ^ 5) (unchanged_score w)) r (
                lt-min (10 ^ 5 / 2) (unchanged_score w) (10 ^ 5 * 1000000) (unchanged_pos w felt)
                  (omega arith)),
            le→leb (round_up (10 ^ 5) (unchanged_score w)) 100 r.0,
          )
      | inr u ↦
          let r = round_up-IsRoundedUp (10 ^ 89) (changed_score w) (omega arith) in
          rw u (
            rounded_pos (10 ^ 89) (changed_score w) (round_up (10 ^ 89) (changed_score w)) r (
                lt-min (10 ^ 89 / 2) (changed_score w) (10 ^ 89 * 1000000)
                  (lt_trans (omega arith) (changed_pos parts felt)) (omega arith)),
            le→leb (round_up (10 ^ 89) (changed_score w)) 100 r.0,
          )
    ]

digits_severity : (d : Decimal) → 0 < d.digits → cvss_score_to_severity (number d) ≢ no_severity
unfolding cvss_score_to_severity
digits_severity d h = ground arith

whole_none : cvss_score_to_severity (number (whole 0)) ≡ no_severity
unfolding cvss_score_to_severity at_least
whole_none = refl

-- The score is a number up to 10, whose severity is none just if there is no impact.
abbrev pub IsScored : List (String × String) → Score → Type 0
IsScored parts score =
    (d : Decimal) × (score ≡ number d)
    × (at_most 10 d ≡ true)
    × ((cvss_score_to_severity score ≡ no_severity) ↔ HasNoImpact parts)

-- A vector none of whose values is the name of a member of Object.prototype has a number up to 10
-- for its score, and the severity of the score is none exactly when the metrics C, I and A are all
-- neither low nor high: no vulnerability that has an impact is passed over for its score.
pub compute_cvss_v3_base_score-IsScored :
    (vector : String)
    → IsPlain (parse_cvss_segments vector)
    → IsScored (parse_cvss_segments vector) (compute_cvss_v3_base_score vector)
unfolding compute_cvss_v3_base_score
compute_cvss_v3_base_score-IsScored vector plain =
    let parts = parse_cvss_segments vector in
    let (impact, exploitability) = has_nan_plain parts plain in
    let (no_impact, no_base) = isc_base-HasNoImpact parts in
    elim (Bool-cases (isc_base (weights_of parts) == 0)) [
      | inl e ↦
          let zero_base : isc_base (weights_of parts) ≡ 0 = ground (arith, e) in
          rw (impact, e)
            (whole 0, refl, unfold at_most in refl, ((λ _. no_impact zero_base), (λ _. whole_none)))
      | inr e ↦
          let felt : isc_base (weights_of parts) ≢ 0 = λ z. ground (arith, e, z) in
          let (pos, small) = base_score-positive parts felt in
          rw (impact, e, exploitability)
            (
              base_score parts,
              refl,
              small,
              (
                (λ n. absurd (digits_severity (base_score parts) pos n)),
                (λ h. absurd (felt (no_base h))),
              ),
            )
    ]
