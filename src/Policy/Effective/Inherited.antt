-- ===== src/Policy/Effective/Inherited.antt =====
-- What a project cannot lose by having no binding: every rule of a global policy applies to it.
use dep_customs.Prelude.{
  ℕ, String, ◌≡◌, refl, sym, subst, true, List, [], ◌∷◌, map, none, inl, inr, arith, str_eq, eq_iff,
  eq_refl, any, In, filter-In, flat_map-In, map-In, In-append_left, In-sort,
}
use dep_customs.Policy.Value.{JsNumber, Value, undefined, null, bool, num, str, arr, obj, or_value}
use dep_customs.Policy.Rules.{ResolvedRule, as_condition}
use dep_customs.Policy.Tables.{
  PolicyRow, RuleBindingRow, RuleRow, Database, global, EffectivePolicy, BoundRule, ResolvedPolicy,
}
use dep_customs.Policy.Effective.{
  in_force, is_global_policy, binding_for, inherit, policy_before, effective_policies, join_rules,
  binding_rule_rows, rules_of, resolve_policy, rule_before, load_effective_policy,
}
use dep_customs.Policy.Overrides.{
  get_rule_override, overrides_of, overridden_condition, overridden_action,
  resolve_enforcement_mode, resolve_mode, resolved_with, resolve_rule,
}
use dep_customs.Policy.Effective.Applying.{current_bindings}

In-any_eq : (s : String) (xs : List String) → In s xs → any (str_eq s) xs ≡ true
In-any_eq s [] i = absurd i
In-any_eq s (x ∷ xs) (inl q) = rw (← q, eq_refl) refl
In-any_eq s (x ∷ xs) (inr i) = ground (arith, In-any_eq s xs i)

module _ {N : Type 0} where
  -- a policy, with no binding
  abbrev pub unbound : PolicyRow → EffectivePolicy N
  unbound p = record { policy = p; source = global; binding = none }

  resolve_mode-none : (mode : Value N) → resolve_mode mode none ≡ mode
  unfolding resolve_mode resolve_enforcement_mode
  resolve_mode-none (str s) = refl
  resolve_mode-none undefined = refl
  resolve_mode-none null = refl
  resolve_mode-none (bool b) = refl
  resolve_mode-none (num n) = refl
  resolve_mode-none (arr items) = refl
  resolve_mode-none (obj ms) = refl

  -- a row of the join
  abbrev pub bound_row : RuleBindingRow → RuleRow N → BoundRule N
  bound_row b rule = record {
    binding_id = b.id;
    policy_id = b.policy_id;
    enabled = b.enabled;
    order_index = b.order_index;
    rule = rule;
  }

module _ {N : Type 0} ⦃js : JsNumber N⦄ (db : Database N) (tenant_id project_id : String) (at : ℕ)
    (p : PolicyRow) (b : RuleBindingRow) (rule : RuleRow N) where
  effective_policies-unbound :
      In p db.policies
      → is_global_policy tenant_id at p ≡ true
      → binding_for p.policy_key (current_bindings db tenant_id project_id at) ≡ none
      → In (unbound p) (effective_policies db tenant_id project_id at)
  unfolding effective_policies inherit
  effective_policies-unbound i g n = (In-sort _ (unbound p) _).1 (
      In-append_left (unbound p) _ _ (
        flat_map-In (inherit (current_bindings db tenant_id project_id at)) p (unbound p) _
          ((In-sort policy_before p _).1
            (filter-In (is_global_policy tenant_id at) p db.policies i g))
          (rw n (inl refl))))

  rows-bound :
      (ids : List String)
      → In b db.policy_rule_bindings
      → b.enabled ≡ true
      → In b.policy_id ids
      → In rule db.rules
      → b.rule_id ≡ rule.id
      → in_force at rule.effective_from rule.effective_to ≡ true
      → In (bound_row b rule) (binding_rule_rows db at ids)
  unfolding binding_rule_rows join_rules
  rows-bound ids i en j k same f = (In-sort _ (bound_row b rule) _).1 (
      flat_map-In (join_rules at db.rules) b (bound_row b rule) _
        (filter-In _ b db.policy_rule_bindings i (rw (In-any_eq b.policy_id ids j, en) refl))
        (map-In _ rule _
          (filter-In _ rule db.rules k (rw ((eq_iff b.rule_id rule.id).1 same, f) refl))))

  -- A rule in force that an enabled binding ties to a policy of the tenant, which is global, active
  -- and in force and has no binding of the project, is in the snapshot, with the rule's own
  -- condition and the enforcement mode of its action, or else of the policy.
  pub all_rules_inherited :
      In p db.policies
      → is_global_policy tenant_id at p ≡ true
      → binding_for p.policy_key (current_bindings db tenant_id project_id at) ≡ none
      → In b db.policy_rule_bindings
      → b.enabled ≡ true
      → b.policy_id ≡ p.id
      → In rule db.rules
      → b.rule_id ≡ rule.id
      → in_force at rule.effective_from rule.effective_to ≡ true
      → (r : ResolvedRule N) × In r (load_effective_policy db tenant_id project_id at).all_rules
        × (r.policy_id ≡ p.id)
        × (r.id ≡ rule.id)
        × (r.condition ≡ as_condition rule.condition)
        × (r.effective_enforcement_mode
            ≡ or_value rule.action.enforcement_mode (str p.enforcement_mode))
  unfolding load_effective_policy resolve_policy rules_of resolve_rule resolved_with
      overridden_condition overridden_action
  all_rules_inherited i g n j en own k same f =
      let effective = effective_policies db tenant_id project_id at in
      let ids = map (λ (e : EffectivePolicy N). e.policy.id) effective in
      let rows = binding_rule_rows db at ids in
      let here = effective_policies-unbound i g n in
      let row =
        rows-bound ids j en
          (subst (λ t. In t ids) (sym own)
            (map-In (λ (e : EffectivePolicy N). e.policy.id) (unbound p) effective here))
          k same f in
      let r =
        resolved_with (unbound p) (bound_row b rule)
          (get_rule_override (overrides_of none) rule.rule_key) in
      (
        r,
        (In-sort rule_before r _).1 (
            flat_map-In (λ (q : ResolvedPolicy N). q.rules) (resolve_policy rows (unbound p)) r _
              (map-In (resolve_policy rows) (unbound p) effective here)
              (flat_map-In (resolve_rule (unbound p)) (bound_row b rule) r _
                (filter-In (λ (x : BoundRule N). str_eq x.policy_id p.id) (bound_row b rule) rows
                  row ((eq_iff b.policy_id p.id).1 own))
                (inl refl))),
        refl,
        refl,
        refl,
        resolve_mode-none _,
      )
