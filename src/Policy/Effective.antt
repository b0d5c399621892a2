-- ===== src/Policy/Effective.antt =====
-- policy/effective.ts: the rules that are in force for a project. The database is the rows of four
-- tables; times are milliseconds; `orderBy` keeps the order of the rows among equal keys, as `sort`
-- does.
pub mod Applying
pub mod Provenance
pub mod Inherited
pub mod Order
pub mod Tests
use dep_customs.Prelude.{
  ℕ, String, Bool, true, false, ◌&&◌, ◌||◌, not, List, [], ◌∷◌, ◌++◌, map, Option, none, some,
  str_eq, ltb, leb, ◌==◌, if◌then◌else◌, filter, flat_map, any, sort,
}
use dep_customs.Policy.Value.{JsNumber}
use dep_customs.Policy.Tables.{
  PolicyRow, BindingRow, RuleBindingRow, RuleRow, Database, global, project, assigned,
  EffectivePolicy, BoundRule, ResolvedPolicy, PolicySnapshot,
}
use dep_customs.Policy.Overrides.{resolve_enforcement_mode, mode_override, binding_id, resolve_rule}
use dep_customs.Policy.Rules.{ResolvedRule}

-- `column = value`, where a null column is no match
abbrev pub is_text : Option String → String → Bool
is_text none s = false
is_text (some t) s = str_eq t s

abbrev pub is_null : Option String → Bool
is_null none = true
is_null (some t) = false

-- from <= at < to
unfoldable pub in_force : (at from to : ℕ) → Bool
in_force at from to = leb from at && ltb at to

unfoldable pub is_project_policy : (tenant_id project_id : String) → ℕ → PolicyRow → Bool
unfolding in_force
is_project_policy tenant_id project_id at p =
    str_eq p.tenant_id tenant_id
    && str_eq p.status "active"
    && str_eq p.scope "project"
    && is_text p.project_id project_id
    && in_force at p.effective_from p.effective_to

unfoldable pub is_global_policy : (tenant_id : String) → ℕ → PolicyRow → Bool
unfolding in_force
is_global_policy tenant_id at p =
    str_eq p.tenant_id tenant_id
    && str_eq p.status "active"
    && str_eq p.scope "global"
    && is_null p.project_id
    && in_force at p.effective_from p.effective_to

abbrev pub policy_before : PolicyRow → PolicyRow → Bool
policy_before p q = ltb p.priority q.priority

module _ {N : Type 0} where
  unfoldable pub is_current_binding : (tenant_id project_id : String) → ℕ → BindingRow N → Bool
  unfolding in_force
  is_current_binding tenant_id project_id at b =
      str_eq b.tenant_id tenant_id
      && str_eq b.project_id project_id
      && in_force at b.effective_from b.effective_to

  -- `new Map(rows.map(…)).get(key)`: the last row of the key
  unfoldable pub binding_for : String → List (BindingRow N) → Option (BindingRow N)
  binding_for key [] = none
  binding_for key (b ∷ bs) = elim (binding_for key bs) [
    | none ↦ if str_eq b.policy_key key then some b else none
    | some later ↦ some later
  ]

  -- the binding takes the policy out of the project
  abbrev pub is_opted_out : BindingRow N → Bool
  is_opted_out b = not b.enabled || str_eq b.inheritance_mode "disabled"

  abbrev with_binding : PolicyRow → Option (BindingRow N) → List (EffectivePolicy N)
  with_binding p none = record { policy = p; source = global; binding = none } ∷ []
  with_binding p (some b) =
      if is_opted_out b then [] else record { policy = p; source = assigned; binding = some b } ∷ []

  unfoldable pub inherit : List (BindingRow N) → PolicyRow → List (EffectivePolicy N)
  inherit bindings p = with_binding p (binding_for p.policy_key bindings)

  unfoldable pub own : PolicyRow → EffectivePolicy N
  own p = record { policy = p; source = project; binding = none }

  unfoldable pub effective_policies :
      Database N → (tenant_id project_id : String) → ℕ → List (EffectivePolicy N)
  unfolding inherit own
  effective_policies db tenant_id project_id at =
      let globals = sort policy_before (filter (is_global_policy tenant_id at) db.policies) in
      let owned =
        sort policy_before (filter (is_project_policy tenant_id project_id at) db.policies) in
      let bindings =
        filter (is_current_binding tenant_id project_id at) db.policy_project_bindings in
      sort (λ p q. policy_before p.policy q.policy)
        (flat_map (inherit bindings) globals ++ map own owned)

  -- the join of the enabled rule bindings of some policies with the rules in force
  unfoldable pub join_rules : ℕ → List (RuleRow N) → RuleBindingRow → List (BoundRule N)
  unfolding in_force
  join_rules at rules b =
      map
        (λ r. record {
          binding_id = b.id;
          policy_id = b.policy_id;
          enabled = b.enabled;
          order_index = b.order_index;
          rule = r;
        })
        (filter (λ r. str_eq b.rule_id r.id && in_force at r.effective_from r.effective_to) rules)

  unfoldable pub binding_rule_rows : Database N → ℕ → List String → List (BoundRule N)
  unfolding join_rules
  binding_rule_rows db at policy_ids =
      sort (λ b c. ltb b.order_index c.order_index)
        (flat_map (join_rules at db.rules)
          (filter (λ b. any (str_eq b.policy_id) policy_ids && b.enabled) db.policy_rule_bindings))

module _ {N : Type 0} where
  -- (policyPriority, orderIndex), ascending
  unfoldable pub rule_before : ResolvedRule N → ResolvedRule N → Bool
  rule_before a b =
      if a.policy_priority == b.policy_priority
      then ltb a.order_index b.order_index
      else ltb a.policy_priority b.policy_priority

module _ {N : Type 0} ⦃js : JsNumber N⦄ where
  -- `rulesByPolicyId.get(policy.id) ?? []`, resolved
  unfoldable pub rules_of : List (BoundRule N) → EffectivePolicy N → List (ResolvedRule N)
  unfolding resolve_rule
  rules_of rows e =
      flat_map (resolve_rule e) (filter (λ row. str_eq row.policy_id e.policy.id) rows)

  unfoldable pub resolve_policy : List (BoundRule N) → EffectivePolicy N → ResolvedPolicy N
  unfolding rules_of
  resolve_policy rows e = record {
    id = e.policy.id;
    policy_key = e.policy.policy_key;
    name = e.policy.name;
    scope = e.policy.scope;
    enforcement_mode = resolve_enforcement_mode e.policy.enforcement_mode (mode_override e.binding);
    priority = e.policy.priority;
    source = e.source;
    policy_project_binding_id = binding_id e.binding;
    override_state = e.binding;
    rules = rules_of rows e;
  }

  -- without policies both lists are empty, as the early return has them
  unfoldable pub load_effective_policy :
      Database N → (tenant_id project_id : String) → ℕ → PolicySnapshot N
  load_effective_policy db tenant_id project_id at =
      let effective = effective_policies db tenant_id project_id at in
      let rows = binding_rule_rows db at (map (λ e. e.policy.id) effective) in
      let resolved = map (resolve_policy rows) effective in
      record {
        resolved_at = at;
        tenant_id = tenant_id;
        project_id = project_id;
        policies = resolved;
        all_rules = sort rule_before (flat_map (λ p. p.rules) resolved);
      }
