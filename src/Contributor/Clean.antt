-- ===== src/Contributor/Clean.antt =====
-- What a release without any sign of risk scores.
use dep_customs.Prelude.{
  ℕ, ◌*◌, ◌-◌, ◌≤◌, ◌<◌, ◌≡◌, ◌⊎◌, ◌∙◌, refl, sym, subst, false, [], ◌∷◌, Option, none, some, arith,
}
use dep_customs.Contributor.{
  ContributorSignals, day, contributor_age_decay_multiplier, decay_factor, velocity_factor, counted,
  is_true, is_false, raw_factors, trusted_publisher_reduction, total, at_most, or_zero, rounded,
  score,
}

-- A count that is unknown or below a limit.
abbrev pub IsBelow : ℕ → Option ℕ → Type 0
IsBelow limit none = Unit
IsBelow limit (some n) = n < limit

-- No signal of the release points to a risk.
pub record IsClean (s : ContributorSignals) : Type 0 where
  pub seen : is_false s.publisher_seen_before_package ≡ false
  pub matches : is_false s.publisher_matches_prior_version ≡ false
  pub same_maintainers : is_true s.maintainer_set_changed ≡ false
  pub none_new : IsBelow 1 s.new_maintainer_count
  pub none_removed : IsBelow 1 s.removed_maintainer_count
  pub no_scripts : is_true s.has_install_scripts ≡ false
  pub provenance : is_false s.has_provenance ≡ false
  pub slow_week : IsBelow 2 s.release_velocity_7d
  pub slow_month : IsBelow 8 s.release_velocity_30d

rounded_zero : (multiplier : ℕ) → rounded multiplier 0 ≡ 0
rounded_zero multiplier = omega arith

at_most_id : (limit n : ℕ) → n ≤ limit → at_most limit n ≡ n
at_most_id limit n h = ground (arith, h)

zero_each : (each limit multiplier : ℕ) → rounded multiplier (at_most limit (0 * each)) ≡ 0
zero_each each limit multiplier =
    let e : at_most limit (0 * each) ≡ 0 =
      at_most_id limit (0 * each) (omega arith) ∙ omega arith in
    rw e (rounded_zero multiplier)

multiplier_bound : (now published_at : ℕ) → contributor_age_decay_multiplier now published_at ≤ 100
unfolding contributor_age_decay_multiplier
multiplier_bound now published_at = ground arith

counted_zero :
    (each limit multiplier : ℕ) (count : Option ℕ)
    → IsBelow 1 count
    → or_zero (decay_factor (counted each limit count) multiplier) ≡ 0
unfolding decay_factor
counted_zero each limit multiplier none h = refl
counted_zero each limit multiplier (some n) h =
    let e : n ≡ 0 = omega (arith, h) in rw e (zero_each each limit multiplier)

week_zero :
    (multiplier : ℕ) (count : Option ℕ)
    → IsBelow 2 count
    → or_zero (decay_factor (velocity_factor count ((5, 12) ∷ (3, 8) ∷ (2, 4) ∷ [])) multiplier) ≡ 0
unfolding decay_factor velocity_factor
week_zero multiplier none h = refl
week_zero multiplier (some n) h = ground (arith, h)

month_zero :
    (multiplier : ℕ) (count : Option ℕ)
    → IsBelow 8 count
    → or_zero (decay_factor (velocity_factor count ((12, 8) ∷ (8, 5) ∷ [])) multiplier) ≡ 0
unfolding decay_factor velocity_factor
month_zero multiplier none h = refl
month_zero multiplier (some n) h = ground (arith, h)

total_zero :
    (s : ContributorSignals) (multiplier : ℕ) → IsClean s → total (raw_factors s multiplier) ≡ 0
unfolding raw_factors decay_factor
total_zero s multiplier c =
    rw (c.seen, c.matches, c.same_maintainers, c.no_scripts, c.provenance)
      (omega (
        arith,
        counted_zero 8 24 multiplier s.new_maintainer_count c.none_new,
        counted_zero 4 12 multiplier s.removed_maintainer_count c.none_removed,
        week_zero multiplier s.release_velocity_7d c.slow_week,
        month_zero multiplier s.release_velocity_30d c.slow_month,
      ))

-- The hundredths of a point that go with an age, in milliseconds.
abbrev pub IsAged : (age points : ℕ) → Type 0
IsAged age points =
    ((age ≤ 30 * day) × (points ≡ 100))
    ⊎ (((30 * day < age) × (age ≤ 90 * day) × (points ≡ 75))
        ⊎ (((90 * day < age) × (age ≤ 180 * day) × (points ≡ 50))
            ⊎ (((180 * day < age) × (age ≤ 365 * day) × (points ≡ 25))
                ⊎ ((365 * day < age) × (points ≡ 10)))))

multiplier-IsAged :
    (now published_at : ℕ)
    → IsAged (now - published_at) (contributor_age_decay_multiplier now published_at)
unfolding contributor_age_decay_multiplier
multiplier-IsAged now published_at = ground arith

score-multiplier :
    (now : ℕ) (s : ContributorSignals)
    → IsClean s
    → is_true s.has_trusted_publisher ≡ false
    → score now s ≡ contributor_age_decay_multiplier now s.published_at
unfolding score trusted_publisher_reduction
score-multiplier now s c untrusted =
    rw (total_zero s (contributor_age_decay_multiplier now s.published_at) c, untrusted)
      (ground (arith, multiplier_bound now s.published_at))

IsAged-positive : (age points : ℕ) → IsAged age points → 0 < points
IsAged-positive age points h = omega (arith, h)

-- A release without any sign of risk, whose publisher is not a trusted one, does not score 0: it
-- scores a whole point up to an age of 30 days, then 0.75 up to 90 days, 0.5 up to 180 days, 0.25
-- up to 365 days, and 0.1 later.
pub score_clean :
    (now : ℕ) (s : ContributorSignals)
    → IsClean s
    → is_true s.has_trusted_publisher ≡ false
    → (0 < score now s) × IsAged (now - s.published_at) (score now s)
score_clean now s c untrusted =
    let aged : IsAged (now - s.published_at) (score now s) =
      subst (IsAged (now - s.published_at)) (sym (score-multiplier now s c untrusted))
        (multiplier-IsAged now s.published_at) in
    (IsAged-positive (now - s.published_at) (score now s) aged, aged)
