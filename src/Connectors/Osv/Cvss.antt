-- ===== src/Connectors/Osv/Cvss.antt =====
-- connectors/osv/parse.ts: CVSS scores. A score is NaN or an exact decimal number. The formula is
-- computed on whole numbers of a small unit, without the binary rounding of floats: the source rounds
-- to five places before it rounds up, so as to remove that noise.
pub mod Impacts
pub mod Scores
pub mod Severities
use Prim.Native.Char.{Char, code}
use Prim.Native.Nat.{◌^◌}
use Prim.Native.String
use dep_customs.Prelude.{
  lookup, ℕ, suc, ◌+◌, ◌-◌, ◌*◌, ◌/◌, String, Bool, true, false, ◌&&◌, ◌||◌, List, [], ◌∷◌, Option,
  none, some, or_else, ltb, leb, ◌==◌, str_eq, starts_with, trim_start, find, if◌then◌else◌,
}
use dep_customs.Connectors.Results.{VulnSeverity, critical, high, medium, low, no_severity}
use dep_customs.Connectors.Osv.Vectors.{Entry, absent, own, inherited, metric, parse_cvss_segments}

-- digits / 10 ^ places
pub record Decimal : Type 0 where
  pub digits : ℕ
  pub places : ℕ

abbrev pub whole : ℕ → Decimal
whole n = record { digits = n; places = 0 }

-- a score: a number, or NaN
pub data Score : Type 0 where
  number : Decimal → Score
  not_a_number : Score

unfoldable pub at_least : ℕ → Decimal → Bool
at_least n d = leb (n * 10 ^ d.places) d.digits

unfoldable pub at_most : ℕ → Decimal → Bool
at_most n d = leb d.digits (n * 10 ^ d.places)

-- the number that digits continue, how many there are, and the text after them
pub record Scanned : Type 0 where
  pub number : ℕ
  pub count : ℕ
  pub rest : String

abbrev is_digit : Char → Bool
is_digit c = leb b'0' (code c) && leb (code c) b'9'

unfoldable pub scan_digits : (number count : ℕ) → String → Scanned
scan_digits n k String.[] = record { number = n; count = k; rest = "" }
scan_digits n k (String.◌∷◌ c s) =
    let more = scan_digits (n * 10 + (code c - b'0')) (suc k) s in
    if is_digit c then more else record { number = n; count = k; rest = String.◌∷◌ c s }

unfoldable pub scan_fraction : ℕ → String → Scanned
scan_fraction n String.[] = record { number = n; count = 0; rest = "" }
scan_fraction n (String.◌∷◌ c s) =
    if code c == b'.'
    then scan_digits n 0 s
    else record { number = n; count = 0; rest = String.◌∷◌ c s }

-- a sign, true for a minus, and the text after it
unfoldable pub signed : String → Bool × String
signed String.[] = (false, "")
signed (String.◌∷◌ c s) =
    if code c == b'-'
    then (true, s)
    else if code c == b'+'
    then (false, s)
    else (false, String.◌∷◌ c s)

-- the exponent that a text begins with, if it does
unfoldable pub scan_exponent : String → Option (Bool × ℕ)
scan_exponent String.[] = none
scan_exponent (String.◌∷◌ c s) =
    if code c == b'e' || code c == b'E'
    then (let (minus, t) = signed s in
        let scanned = scan_digits 0 0 t in
        if scanned.count == 0 then none else some (minus, scanned.number))
    else none

unfoldable pub scaled : ℕ → ℕ → Option (Bool × ℕ) → Decimal
scaled n places none = record { digits = n; places = places }
scaled n places (some (true, e)) = record { digits = n; places = places + e }
scaled n places (some (false, e)) = record { digits = n * 10 ^ e; places = places }

-- `parseFloat`: the sign and the size of the number; an infinity, which is no score, is left out
unfoldable pub parse_float : String → Option (Bool × Decimal)
parse_float text =
    let (minus, t) = signed (trim_start text) in
    let before = scan_digits 0 0 t in
    let after = scan_fraction before.number before.rest in
    if before.count + after.count == 0
    then none
    else some (minus, scaled after.number after.count (scan_exponent after.rest))

-- a number from 0 to 10
unfoldable pub direct_score : String → Option Decimal
direct_score text = elim (parse_float text) [
  | none ↦ none
  | some (minus, d) ↦
      if (if minus then d.digits == 0 else true) && at_most 10 d then some d else none
]

-- The weights of the metrics, in hundredths, 0 for an absent one: those that are not NaN.
pub record Weights : Type 0 where
  pub av : ℕ
  pub ac : ℕ
  pub ui : ℕ
  pub pr : ℕ
  pub c : ℕ
  pub i : ℕ
  pub a : ℕ

abbrev pub cia_w : List (String × ℕ)
cia_w = ("N", 0) ∷ ("L", 22) ∷ ("H", 56) ∷ []

abbrev pr_u : List (String × ℕ)
pr_u = ("N", 85) ∷ ("L", 62) ∷ ("H", 27) ∷ []

abbrev pr_c : List (String × ℕ)
pr_c = ("N", 85) ∷ ("L", 68) ∷ ("H", 50) ∷ []

-- `table[parts[key]] ?? 0`, where it is a number
abbrev pub weight : Entry ℕ → ℕ
weight (own n) = n
weight absent = 0
weight (inherited _) = 0

abbrev pub is_inherited : Entry ℕ → Bool
is_inherited (inherited _) = true
is_inherited other = false

unfoldable pub scope_of : List (String × String) → String
scope_of parts = or_else (lookup "S" parts) "U"

abbrev pub av_entry : List (String × String) → Entry ℕ
av_entry = metric "AV" (("N", 85) ∷ ("A", 62) ∷ ("L", 55) ∷ ("P", 20) ∷ [])

abbrev pub ac_entry : List (String × String) → Entry ℕ
ac_entry = metric "AC" (("L", 77) ∷ ("H", 44) ∷ [])

abbrev pub ui_entry : List (String × String) → Entry ℕ
ui_entry = metric "UI" (("N", 85) ∷ ("R", 62) ∷ [])

abbrev pub pr_entry : List (String × String) → Entry ℕ
pr_entry parts = metric "PR" (if str_eq (scope_of parts) "C" then pr_c else pr_u) parts

unfoldable pub weights_of : List (String × String) → Weights
weights_of parts = record {
  av = weight (av_entry parts);
  ac = weight (ac_entry parts);
  ui = weight (ui_entry parts);
  pr = weight (pr_entry parts);
  c = weight (metric "C" cia_w parts);
  i = weight (metric "I" cia_w parts);
  a = weight (metric "A" cia_w parts);
}

-- A weight of the impact, or of the exploitability, is NaN.
unfoldable pub has_nan_impact : List (String × String) → Bool
has_nan_impact parts =
    is_inherited (metric "C" cia_w parts)
    || is_inherited (metric "I" cia_w parts)
    || is_inherited (metric "A" cia_w parts)

unfoldable pub has_nan_exploitability : List (String × String) → Bool
has_nan_exploitability parts =
    is_inherited (av_entry parts)
    || is_inherited (ac_entry parts)
    || is_inherited (ui_entry parts)
    || is_inherited (pr_entry parts)

-- in units of 10 ^ -10
unfoldable pub exploitability_score : Weights → ℕ
exploitability_score w = 822 * w.av * w.ac * w.pr * w.ui

-- in units of 10 ^ -6
unfoldable pub isc_base : Weights → ℕ
isc_base w = 1000000 - (100 - w.c) * (100 - w.i) * (100 - w.a)

-- The base score before it is rounded, where the impact is more than none: in units of 10 ^ -10 with
-- the scope unchanged, and of 10 ^ -94 else.
unfoldable pub unchanged_score : Weights → ℕ
unchanged_score w = 642 * isc_base w * 100 + exploitability_score w

unfoldable pub changed_score : Weights → ℕ
changed_score w =
    let isc = isc_base w in
    108
    * (752 * (isc - 29000) * 10 ^ 84 - 325 * (isc - 20000) ^ 15 + exploitability_score w * 10 ^ 82)

abbrev pub min : ℕ → ℕ → ℕ
min a b = if ltb b a then b else a

-- At most ten, to the nearest 10 ^ -5 and then up to tenths; `unit` is 10 ^ -5.
unfoldable pub round_up : (unit : ℕ) → ℕ → ℕ
round_up unit score = ((min score (unit * 1000000) + unit / 2) / unit + 9999) / 10000

unfoldable pub base_score : List (String × String) → Decimal
base_score parts = record {
  digits =
      if str_eq (scope_of parts) "U"
      then round_up (10 ^ 5) (unchanged_score (weights_of parts))
      else round_up (10 ^ 89) (changed_score (weights_of parts));
  places = 1;
}

-- NaN is not at most 0, and comes out of all the arithmetic that it goes into.
unfoldable pub compute_cvss_v3_base_score : String → Score
compute_cvss_v3_base_score vector =
    let parts = parse_cvss_segments vector in
    if has_nan_impact parts
    then not_a_number
    else if isc_base (weights_of parts) == 0
    then number (whole 0)
    else if has_nan_exploitability parts
    then not_a_number
    else number (base_score parts)

unfoldable pub extract_numeric_score : String → Score
extract_numeric_score text = elim (direct_score text) [
  | some d ↦ number d
  | none ↦ if starts_with text "CVSS:3" then compute_cvss_v3_base_score text else number (whole 0)
]

unfoldable pub cvss_score_to_severity : Score → VulnSeverity
cvss_score_to_severity not_a_number = no_severity
cvss_score_to_severity (number score) =
    if at_least 9 score
    then critical
    else if at_least 7 score
    then high
    else if at_least 4 score
    then medium
    else if ltb 0 score.digits
    then low
    else no_severity

pub record OsvSeverityEntry : Type 0 where
  pub type : String
  pub score : String

pub data CvssVersion : Type 0 where
  v3 v4 v2 unversioned : CvssVersion

pub record BestCvss : Type 0 where
  pub score : Score
  pub version : CvssVersion
  pub vector : Option String

unfoldable pub pick_preferred : List (String × CvssVersion) → List OsvSeverityEntry → BestCvss
pick_preferred [] severities = record {
  score = number (whole 0);
  version = unversioned;
  vector = none;
}
pick_preferred ((preferred, version) ∷ others) severities =
    let rest = pick_preferred others severities in
    elim (find (λ (s : OsvSeverityEntry). str_eq s.type preferred) severities) [
      | some entry ↦ record {
        score = extract_numeric_score entry.score;
        version = version;
        vector = some entry.score;
      }
      | none ↦ rest
    ]

unfoldable pub pick_best_cvss : List OsvSeverityEntry → BestCvss
pick_best_cvss = pick_preferred (("CVSS_V3", v3) ∷ ("CVSS_V4", v4) ∷ ("CVSS_V2", v2) ∷ [])
