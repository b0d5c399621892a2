-- ===== src/Policy/Effective/Tests.antt =====
-- A tenant with one global policy, which blocks young packages, and a project without bindings.
use mathlib.Core.List.{Perm}
use dep_customs.Prelude.{
  ℕ, ◌≤◌, ◌≡◌, ◌≢◌, ◌↔◌, refl, String, true, false, List, [], ◌∷◌, Option, none, some, In, inl,
  flat_map,
}
use dep_customs.Policy.Value.{Value, Members, undefined, str, num, obj}
use dep_customs.Policy.Value.Sample.{Sample, natural, sample_number}
use dep_customs.Policy.Rules.{ResolvedRule, RuleAction, as_condition}
use dep_customs.Policy.Tables.{PolicyRow, RuleBindingRow, RuleRow, Database, ResolvedPolicy}
use dep_customs.Policy.Effective.{load_effective_policy}
use dep_customs.Policy.Overrides.{resolve_enforcement_mode, resolved_with}
use dep_customs.Policy.Overrides.Modes.{strictness, resolve_enforcement_mode-softens}
use dep_customs.Policy.Effective.Applying.{Applies}
use dep_customs.Policy.Effective.Provenance.{IsBound, all_rules→Applies}
use dep_customs.Policy.Effective.Inherited.{all_rules_inherited}
use dep_customs.Policy.Effective.Order.{IsOrdered, all_rules-IsOrdered}

abbrev baseline : PolicyRow
baseline = record {
  id = "p1";
  tenant_id = "t1";
  project_id = none;
  policy_key = "baseline";
  name = "Baseline";
  scope = "global";
  status = "active";
  enforcement_mode = "advisory";
  priority = 10;
  effective_from = 0;
  effective_to = 100;
}

abbrev young : Value Sample
young = obj (
    Members.member "field" (str "asset.version_age_days") (
      Members.member "operator" (str "lt") (Members.member "value" (num (natural 7)) Members.none)))

abbrev action : RuleAction Sample
action = record {
  type = str "violation";
  severity = undefined;
  code = undefined;
  message_template = undefined;
  recommended_remediation = undefined;
  enforcement_mode = undefined;
}

abbrev rule : RuleRow Sample
rule = record {
  id = "r1";
  rule_key = "young";
  name = "Young package";
  description = none;
  target_entity = "version";
  condition = young;
  action = action;
  effective_from = 0;
  effective_to = 100;
}

abbrev bound : RuleBindingRow
bound = record { id = "b1"; policy_id = "p1"; rule_id = "r1"; enabled = true; order_index = 0 }

abbrev tables : Database Sample
tables = record {
  policies = baseline ∷ [];
  policy_project_bindings = [];
  policy_rule_bindings = bound ∷ [];
  rules = rule ∷ [];
}

resolve_enforcement_mode-softens_example :
    (strictness (resolve_enforcement_mode "enforcing" (some "advisory")) ≤ strictness "enforcing")
    × (resolve_enforcement_mode "enforcing" (some "disabled") ≡ "disabled")
    × ((resolve_enforcement_mode "enforcing" (some "advisory") ≡ "enforcing") ↔ (
        (◌≡◌ {A = String} "enforcing" "enforcing")
        × (◌≢◌ {A = Option String} (some "advisory") (some "advisory"))
        × (◌≢◌ {A = Option String} (some "advisory") (some "disabled"))))
resolve_enforcement_mode-softens_example =
    resolve_enforcement_mode-softens "enforcing" (some "advisory")

-- the one rule in force
abbrev resolved : ResolvedRule Sample
resolved = record {
  id = "r1";
  rule_key = "young";
  policy_id = "p1";
  policy_rule_binding_id = "b1";
  policy_project_binding_id = none;
  policy_name = "Baseline";
  name = "Young package";
  description = none;
  target_entity = "version";
  condition = as_condition young;
  action = action;
  effective_enforcement_mode = str "advisory";
  order_index = 0;
  policy_priority = 10;
}

all_rules→Applies_example :
    (p : PolicyRow) × Applies tables "t1" "e1" 5 p
    × (◌≡◌ {A = String} "p1" p.id)
    × IsBound tables 5 p.id "r1"
unfolding load_effective_policy dep_customs.Prelude.sort
    dep_customs.Policy.Effective.effective_policies dep_customs.Policy.Effective.is_global_policy
    dep_customs.Policy.Effective.binding_for dep_customs.Policy.Effective.is_project_policy
    dep_customs.Policy.Effective.resolve_policy dep_customs.Policy.Effective.binding_rule_rows
    resolved_with resolve_enforcement_mode dep_customs.Policy.Overrides.resolve_mode
all_rules→Applies_example = all_rules→Applies tables "t1" "e1" 5 resolved (inl refl)

all_rules_inherited_example :
    (r : ResolvedRule Sample) × In r (load_effective_policy tables "t1" "e1" 5).all_rules
    × (r.policy_id ≡ "p1")
    × (r.id ≡ "r1")
    × (r.condition ≡ as_condition young)
    × (r.effective_enforcement_mode ≡ str "advisory")
unfolding dep_customs.Policy.Effective.is_global_policy dep_customs.Policy.Effective.binding_for
all_rules_inherited_example =
    all_rules_inherited tables "t1" "e1" 5 baseline bound rule (inl refl) refl refl (inl refl) refl
      refl (inl refl) refl refl

all_rules-IsOrdered_example :
    Perm (load_effective_policy tables "t1" "e1" 5).all_rules (
      flat_map
        (λ (p : ResolvedPolicy Sample). p.rules)
        (load_effective_policy tables "t1" "e1" 5).policies)
    × IsOrdered (load_effective_policy tables "t1" "e1" 5).all_rules
all_rules-IsOrdered_example = all_rules-IsOrdered tables "t1" "e1" 5
