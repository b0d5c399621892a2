-- ===== src/Contributor/Tests.antt =====
-- A release of today without any known sign of risk.
use dep_customs.Prelude.{◌≡◌, ◌<◌, refl, some, none, false, true, arith}
use dep_customs.Contributor.{ContributorSignals, day, contributor_age_decay_multiplier, score}
use dep_customs.Contributor.Clean.{IsAged, score_clean}

abbrev release : ContributorSignals
release = record {
  version = "1.0.0";
  published_at = 0;
  publisher = none;
  publisher_seen_before_package = some true;
  publisher_seen_count_before = none;
  publisher_matches_prior_version = some true;
  prior_version_publisher = none;
  maintainer_set_changed = some false;
  new_maintainer_count = some 0;
  removed_maintainer_count = none;
  maintainer_count = none;
  has_install_scripts = some false;
  has_provenance = some true;
  has_trusted_publisher = none;
  release_velocity_7d = some 1;
  release_velocity_30d = none;
  history_complete = none;
}

-- one point on the first day
one_point : score day release ≡ 100
unfolding score dep_customs.Contributor.raw_factors dep_customs.Contributor.decay_factor
    contributor_age_decay_multiplier dep_customs.Contributor.velocity_factor
    dep_customs.Contributor.trusted_publisher_reduction
one_point = refl

score_clean_example : (0 < score day release) × IsAged day (score day release)
score_clean_example =
    score_clean day release
      (record {
        seen = refl;
        matches = refl;
        same_maintainers = refl;
        none_new = omega arith;
        none_removed = tt;
        no_scripts = refl;
        provenance = refl;
        slow_week = omega arith;
        slow_month = tt;
      })
      refl
