-- ===== src/Policy/Overrides.antt =====
-- policy/effective.ts: what a project's binding makes of a rule.
pub mod Modes
use dep_customs.Prelude.{
  String, Bool, true, false, ◌&&◌, List, [], ◌∷◌, Option, none, some, str_eq, if◌then◌else◌,
}
use dep_customs.Policy.Value.{
  JsNumber, Value, undefined, bool, str, arr, obj, or_value, is_text_value,
}
use dep_customs.Policy.Expression.{Condition}
use dep_customs.Policy.Tables.{BindingRow, RuleRow, EffectivePolicy, BoundRule}
use dep_customs.Policy.Rules.{
  RuleAction, ResolvedRule, member_at, lookup_member, has_member, as_condition,
}

-- `resolveEnforcementMode`; an empty override counts as none
unfoldable pub resolve_enforcement_mode : String → Option String → String
resolve_enforcement_mode base none = base
resolve_enforcement_mode base (some override) =
    if str_eq override ""
    then base
    else if str_eq base "enforcing" && str_eq override "advisory"
    then "advisory"
    else if str_eq override "disabled"
    then "disabled"
    else base

module _ {N : Type 0} where
  -- A base that is no text is none of the modes.
  unfoldable pub resolve_mode : Value N → Option String → Value N
  resolve_mode (str base) override = str (resolve_enforcement_mode base override)
  resolve_mode base none = base
  resolve_mode base (some override) = if str_eq override "disabled" then str "disabled" else base

  -- `getRuleOverride`: an object or array of the overrides, under the rule's key
  abbrev object_or_undefined : Value N → Value N
  object_or_undefined (obj ms) = obj ms
  object_or_undefined (arr items) = arr items
  object_or_undefined v = undefined

  unfoldable pub get_rule_override : Value N → String → Value N
  get_rule_override rule_overrides rule_key =
      object_or_undefined (member_at rule_key rule_overrides)

  abbrev is_false_value : Value N → Bool
  is_false_value (bool false) = true
  is_false_value v = false

  -- `override?.enabled === false`
  unfoldable pub is_switched_off : Value N → Bool
  is_switched_off override = is_false_value (member_at "enabled" override)

  -- `override?.condition?.mode === "replace"`, `override?.action?.mode === "merge"`
  unfoldable pub has_mode : String → String → Value N → Bool
  has_mode part mode override = is_text_value mode (member_at "mode" (member_at part override))

  -- one field of `{ ...action, ...value }`
  abbrev pub merged_field : String → Value N → Value N → Value N
  merged_field key (obj ms) old = if has_member key ms then lookup_member key ms else old
  merged_field key v old = old

  unfoldable pub merge_action : RuleAction N → Value N → RuleAction N
  merge_action action value = record {
    type = merged_field "type" value action.type;
    severity = merged_field "severity" value action.severity;
    code = merged_field "code" value action.code;
    message_template = merged_field "message_template" value action.message_template;
    recommended_remediation =
        merged_field "recommended_remediation" value action.recommended_remediation;
    enforcement_mode = merged_field "enforcement_mode" value action.enforcement_mode;
  }

  abbrev pub overrides_of : Option (BindingRow N) → Value N
  overrides_of none = undefined
  overrides_of (some b) = b.rule_overrides

  abbrev pub mode_override : Option (BindingRow N) → Option String
  mode_override none = none
  mode_override (some b) = b.enforcement_mode_override

  abbrev pub binding_id : Option (BindingRow N) → Option String
  binding_id none = none
  binding_id (some b) = some b.id

module _ {N : Type 0} ⦃js : JsNumber N⦄ where
  unfoldable pub overridden_condition : Value N → RuleRow N → Condition N
  unfolding has_mode
  overridden_condition override rule =
      if has_mode "condition" "replace" override
      then as_condition (member_at "value" (member_at "condition" override))
      else as_condition rule.condition

  unfoldable pub overridden_action : Value N → RuleRow N → RuleAction N
  unfolding has_mode merge_action
  overridden_action override rule =
      if has_mode "action" "merge" override
      then merge_action rule.action (member_at "value" (member_at "action" override))
      else rule.action

  unfoldable pub resolved_with :
      EffectivePolicy N → BoundRule N → (override : Value N) → ResolvedRule N
  unfolding overridden_condition overridden_action
  resolved_with e row override =
      let action = overridden_action override row.rule in
      record {
        id = row.rule.id;
        rule_key = row.rule.rule_key;
        policy_id = e.policy.id;
        policy_rule_binding_id = row.binding_id;
        policy_project_binding_id = binding_id e.binding;
        policy_name = e.policy.name;
        name = row.rule.name;
        description = row.rule.description;
        target_entity = row.rule.target_entity;
        condition = overridden_condition override row.rule;
        action = action;
        effective_enforcement_mode =
            resolve_mode (or_value action.enforcement_mode (str e.policy.enforcement_mode))
              (mode_override e.binding);
        order_index = row.order_index;
        policy_priority = e.policy.priority;
      }

  unfoldable pub resolve_rule : EffectivePolicy N → BoundRule N → List (ResolvedRule N)
  unfolding get_rule_override is_switched_off
  resolve_rule e row =
      let override = get_rule_override (overrides_of e.binding) row.rule.rule_key in
      if is_switched_off override then [] else resolved_with e row override ∷ []
