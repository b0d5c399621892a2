-- ===== src/Policy/Overrides/Modes.antt =====
-- Enforcement modes: what a project's binding can do to the mode of a policy or rule.
use dep_customs.Prelude.{
  ℕ, ◌≤◌, String, ◌≡◌, ◌≢◌, ◌↔◌, ◌⊎◌, refl, ap, subst, inl, inr, Option, none, some, arith, str_eq,
  eq_iff, if◌then◌else◌,
}
use dep_customs.Policy.Overrides.{resolve_enforcement_mode}

-- How strict a mode is: disabled, advisory, and anything else.
abbrev pub strictness : String → ℕ
strictness mode = if str_eq mode "disabled" then 0 else if str_eq mode "advisory" then 1 else 2

resolve_cases :
    (base : String) (override : Option String)
    → (resolve_enforcement_mode base override ≡ base)
      ⊎ ((resolve_enforcement_mode base override ≡ "disabled")
          ⊎ ((base ≡ "enforcing") × (resolve_enforcement_mode base override ≡ "advisory")))
unfolding resolve_enforcement_mode
resolve_cases base none = inl refl
resolve_cases base (some o) = ground (arith, eq_iff base "enforcing")

softens :
    (base mode : String)
    → (mode ≡ base) ⊎ ((mode ≡ "disabled") ⊎ ((base ≡ "enforcing") × (mode ≡ "advisory")))
    → strictness mode ≤ strictness base
softens base mode (inl e) = rw e (omega arith)
softens base mode (inr (inl e)) = rw e (omega arith)
softens base mode (inr (inr (e, f))) = rw (e, f) (omega arith)

advisory_softens : (base : String) → resolve_enforcement_mode base (some "advisory") ≢ "enforcing"
unfolding resolve_enforcement_mode
advisory_softens base h = ground (arith, eq_iff base "enforcing", eq_iff "advisory" "enforcing")

disabled_disables : (base : String) → resolve_enforcement_mode base (some "disabled") ≢ "enforcing"
unfolding resolve_enforcement_mode
disabled_disables base h = ground (arith, eq_iff base "enforcing", eq_iff "disabled" "enforcing")

enforcing_iff :
    (base : String) (override : Option String)
    → (resolve_enforcement_mode base override ≡ "enforcing")
      ↔ ((base ≡ "enforcing") × (override ≢ some "advisory") × (override ≢ some "disabled"))
unfolding resolve_enforcement_mode
enforcing_iff base none = ((λ e. (e, (λ h. cc), (λ h. cc))), (λ p. p.0))
enforcing_iff base (some o) = (
  (λ e. (
    ground (arith, eq_iff base "enforcing", eq_iff "disabled" "enforcing"),
    (λ h. advisory_softens base (subst (λ x. resolve_enforcement_mode base x ≡ "enforcing") h e)),
    (λ h. disabled_disables base (subst (λ x. resolve_enforcement_mode base x ≡ "enforcing") h e)),
  )),
  (λ p.
      let not_advisory : o ≢ "advisory" = λ e. p.1 (ap some e) in
      let not_disabled : o ≢ "disabled" = λ e. p.2 (ap some e) in
      ground (arith, p.0, eq_iff o "advisory", eq_iff o "disabled")),
)

-- The override of a binding never makes a mode stricter, `disabled` disables every mode, and the
-- resolved mode is enforcing exactly when the base is and the override asks for nothing softer.
pub resolve_enforcement_mode-softens :
    (base : String) (override : Option String)
    → (strictness (resolve_enforcement_mode base override) ≤ strictness base)
      × (resolve_enforcement_mode base (some "disabled") ≡ "disabled")
      × ((resolve_enforcement_mode base override ≡ "enforcing")
          ↔ ((base ≡ "enforcing") × (override ≢ some "advisory") × (override ≢ some "disabled")))
resolve_enforcement_mode-softens base override = (
  softens base _ (resolve_cases base override),
  unfold resolve_enforcement_mode in ground (arith, eq_iff base "enforcing"),
  enforcing_iff base override,
)
