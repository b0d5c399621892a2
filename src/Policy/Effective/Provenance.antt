-- ===== src/Policy/Effective/Provenance.antt =====
-- Where the rules of a snapshot come from: no rule of another tenant or project, of a policy or rule
-- that is not in force, or of a policy that the project has opted out of.
use mathlib.Core.Path.{subst₂}
use dep_customs.Prelude.{
  ℕ, String, ◌≡◌, sym, ap, subst, true, ◌&&◌, List, map, str_eq, eq_iff, any, In, In-filter,
  In-flat_map, In-map, In-sort,
}
use dep_customs.Policy.Value.{JsNumber}
use dep_customs.Policy.Rules.{ResolvedRule}
use dep_customs.Policy.Tables.{
  PolicyRow, RuleBindingRow, RuleRow, Database, EffectivePolicy, BoundRule, ResolvedPolicy,
}
use dep_customs.Policy.Effective.{
  in_force, effective_policies, join_rules, binding_rule_rows, rules_of, resolve_policy,
  rule_before, load_effective_policy,
}
use dep_customs.Policy.Overrides.{resolved_with, resolve_rule}
use dep_customs.Policy.Effective.Applying.{
  InForce, Applies, effective_policies→Applies, in_force→InForce, and_left, and_right, In-if,
}

module _ {N : Type 0} (db : Database N) (at : ℕ) where
  -- The rule is bound to the policy by an enabled binding, and is in force.
  pub record IsBound (policy_id rule_id : String) : Type 0 where
    pub binding : RuleBindingRow
    pub rule : RuleRow N
    pub bound : In binding db.policy_rule_bindings
    pub stored : In rule db.rules
    pub of_policy : binding.policy_id ≡ policy_id
    pub of_rule : binding.rule_id ≡ rule.id
    pub enabled : binding.enabled ≡ true
    pub current : InForce at rule.effective_from rule.effective_to
    pub same : rule.id ≡ rule_id

  rows→IsBound :
      (ids : List String) (row : BoundRule N)
      → In row (binding_rule_rows db at ids)
      → IsBound row.policy_id row.rule.id
  unfolding binding_rule_rows join_rules
  rows→IsBound ids row i =
      let (b, j, k) = In-flat_map (join_rules at db.rules) row _ ((In-sort _ row _).0 i) in
      let (l, t) =
        In-filter (λ b. any (str_eq b.policy_id) ids && b.enabled) b db.policy_rule_bindings j in
      let (r, m, q) = In-map _ row _ k in
      let (n, u) =
        In-filter (λ r. str_eq b.rule_id r.id && in_force at r.effective_from r.effective_to) r
          db.rules m in
      record {
        binding = b;
        rule = r;
        bound = l;
        stored = n;
        of_policy = ap (λ x. x.policy_id) (sym q);
        of_rule = (eq_iff b.rule_id r.id).0 (and_left _ _ u);
        enabled = and_right _ _ t;
        current = in_force→InForce at r.effective_from r.effective_to (and_right _ _ u);
        same = ap (λ x. x.rule.id) (sym q);
      }

module _ {N : Type 0} ⦃js : JsNumber N⦄ (db : Database N) (tenant_id project_id : String)
    (at : ℕ) where
  resolve_rule→ids :
      (e : EffectivePolicy N) (row : BoundRule N) (r : ResolvedRule N)
      → In r (resolve_rule e row)
      → (r.policy_id ≡ e.policy.id) × (r.id ≡ row.rule.id)
  unfolding resolve_rule resolved_with
  resolve_rule→ids e row r i = let q = In-if r _ _ i in (ap (λ x. x.policy_id) q, ap (λ x. x.id) q)

  -- Every rule of the snapshot comes from a policy that applies to the project: one of the tenant,
  -- active and in force, that is the project's own, or is global and not opted out of by the
  -- project's bindings. An enabled binding ties the rule to the policy, and the rule is in force.
  pub all_rules→Applies :
      (r : ResolvedRule N)
      → In r (load_effective_policy db tenant_id project_id at).all_rules
      → (p : PolicyRow) × Applies db tenant_id project_id at p
        × (r.policy_id ≡ p.id)
        × IsBound db at p.id r.id
  unfolding load_effective_policy resolve_policy rules_of
  all_rules→Applies r i =
      let (rp, j, k) =
        In-flat_map (λ (p : ResolvedPolicy N). p.rules) r _ ((In-sort rule_before r _).0 i) in
      let (e, l, q) = In-map _ rp _ j in
      let rows =
        binding_rule_rows db at
          (map (λ e. e.policy.id) (effective_policies db tenant_id project_id at)) in
      let (row, m, n) =
        In-flat_map (resolve_rule e) r _ (subst (λ (x : ResolvedPolicy N). In r x.rules) q k) in
      let (o, t) = In-filter (λ row. str_eq row.policy_id e.policy.id) row rows m in
      let (p_id, r_id) = resolve_rule→ids e row r n in
      (
        e.policy,
        effective_policies→Applies db tenant_id project_id at e l,
        p_id,
        subst₂ (IsBound db at) ((eq_iff row.policy_id e.policy.id).0 t) (sym r_id)
            (rows→IsBound db at _ row o),
      )
