-- ===== src/Contributor.antt =====
-- connectors/contributor/scorer.ts: the risk score of a release. Scores and multipliers are counted
-- in hundredths, in which `Math.round` of a factor times a multiplier is exact: the factors are whole
-- numbers up to 25 and the multipliers whole hundredths. Times are milliseconds, and a release in the
-- future is of age 0.
pub mod Clean
pub mod Tests
use dep_customs.Prelude.{
  ℕ, ◌+◌, ◌-◌, ◌*◌, ◌/◌, String, Bool, true, false, not, List, [], ◌∷◌, Option, none, some, leb,
  if◌then◌else◌, map, filter, is_some,
}

pub record ContributorSignals : Type 0 where
  pub version : String
  pub published_at : ℕ
  pub publisher : Option String
  pub publisher_seen_before_package : Option Bool
  pub publisher_seen_count_before : Option ℕ
  pub publisher_matches_prior_version : Option Bool
  pub prior_version_publisher : Option String
  pub maintainer_set_changed : Option Bool
  pub new_maintainer_count : Option ℕ
  pub removed_maintainer_count : Option ℕ
  pub maintainer_count : Option ℕ
  pub has_install_scripts : Option Bool
  pub has_provenance : Option Bool
  pub has_trusted_publisher : Option Bool
  pub release_velocity_7d : Option ℕ
  pub release_velocity_30d : Option ℕ
  pub history_complete : Option Bool

-- one day
abbrev pub day : ℕ
day = 86400000

-- in hundredths
unfoldable pub contributor_age_decay_multiplier : (now published_at : ℕ) → ℕ
contributor_age_decay_multiplier now published_at =
    let age = now - published_at in
    if leb age (30 * day)
    then 100
    else if leb age (90 * day)
    then 75
    else if leb age (180 * day)
    then 50
    else if leb age (365 * day)
    then 25
    else 10

-- `Math.round(value * multiplier)`
abbrev pub rounded : ℕ → ℕ → ℕ
rounded multiplier value = (value * multiplier + 50) / 100

unfoldable pub decay_factor : Option ℕ → ℕ → Option ℕ
decay_factor none multiplier = none
decay_factor (some value) multiplier = some (rounded multiplier value)

unfoldable pub velocity_factor : Option ℕ → List (ℕ × ℕ) → Option ℕ
velocity_factor none thresholds = none
velocity_factor (some value) [] = some 0
velocity_factor (some value) ((minimum, score) ∷ thresholds) =
    let rest = velocity_factor (some value) thresholds in
    if leb minimum value then some score else rest

-- `signal === true`, `signal === false`
abbrev pub is_true : Option Bool → Bool
is_true none = false
is_true (some b) = b

abbrev pub is_false : Option Bool → Bool
is_false none = false
is_false (some b) = not b

abbrev pub at_most : ℕ → ℕ → ℕ
at_most limit n = if leb n limit then n else limit

abbrev pub counted : (each limit : ℕ) → Option ℕ → Option ℕ
counted each limit none = none
counted each limit (some n) = some (at_most limit (n * each))

-- the raw factors, in whole points: the trusted publisher's reduction is kept apart, since it is
-- negative, and the multiplier, which is in hundredths
unfoldable pub raw_factors : ContributorSignals → ℕ → List (Option ℕ)
raw_factors signals multiplier =
    decay_factor (some (if is_false signals.publisher_seen_before_package then 25 else 0))
      multiplier
    ∷ decay_factor (some (if is_false signals.publisher_matches_prior_version then 20 else 0))
        multiplier
    ∷ decay_factor (some (if is_true signals.maintainer_set_changed then 12 else 0)) multiplier
    ∷ decay_factor (counted 8 24 signals.new_maintainer_count) multiplier
    ∷ decay_factor (counted 4 12 signals.removed_maintainer_count) multiplier
    ∷ some (if is_true signals.has_install_scripts then 25 else 0)
    ∷ some (if is_false signals.has_provenance then 10 else 0)
    ∷ decay_factor (velocity_factor signals.release_velocity_7d ((5, 12) ∷ (3, 8) ∷ (2, 4) ∷ []))
        multiplier
    ∷ decay_factor (velocity_factor signals.release_velocity_30d ((12, 8) ∷ (8, 5) ∷ [])) multiplier
    ∷ []

unfoldable pub trusted_publisher_reduction : ContributorSignals → ℕ
trusted_publisher_reduction signals = if is_true signals.has_trusted_publisher then 10 else 0

abbrev pub or_zero : Option ℕ → ℕ
or_zero none = 0
or_zero (some n) = n

abbrev pub total : List (Option ℕ) → ℕ
total [] = 0
total (factor ∷ factors) = or_zero factor + total factors

-- the sum of all the raw factors, the multiplier among them, between 0 and 100 points
unfoldable pub score : (now : ℕ) → ContributorSignals → ℕ
score now signals =
    let multiplier = contributor_age_decay_multiplier now signals.published_at in
    at_most 10000 (
      total (raw_factors signals multiplier) * 100
      + multiplier
      - trusted_publisher_reduction signals * 100)

-- the keys whose signal is known, in the order of the record
unfoldable pub signals_available : ContributorSignals → List String
signals_available s =
    map (λ (entry : String × Bool). entry.0)
      (filter (λ (entry : String × Bool). entry.1)
        (("version", true)
          ∷ ("publishedAt", true)
          ∷ ("publisher", is_some s.publisher)
          ∷ ("publisherSeenBeforePackage", is_some s.publisher_seen_before_package)
          ∷ ("publisherSeenCountBefore", is_some s.publisher_seen_count_before)
          ∷ ("publisherMatchesPriorVersion", is_some s.publisher_matches_prior_version)
          ∷ ("priorVersionPublisher", is_some s.prior_version_publisher)
          ∷ ("maintainerSetChanged", is_some s.maintainer_set_changed)
          ∷ ("newMaintainerCount", is_some s.new_maintainer_count)
          ∷ ("removedMaintainerCount", is_some s.removed_maintainer_count)
          ∷ ("maintainerCount", is_some s.maintainer_count)
          ∷ ("hasInstallScripts", is_some s.has_install_scripts)
          ∷ ("hasProvenance", is_some s.has_provenance)
          ∷ ("hasTrustedPublisher", is_some s.has_trusted_publisher)
          ∷ ("releaseVelocity7d", is_some s.release_velocity_7d)
          ∷ ("releaseVelocity30d", is_some s.release_velocity_30d)
          ∷ ("historyComplete", is_some s.history_complete)
          ∷ []))
