-- ===== src/Policy/Decision/Tests.antt =====
-- A package that is two days old, under a rule that blocks young packages, one that only advises,
-- one whose condition is malformed and one whose message template is a number.
use dep_customs.Prelude.{◌≡◌, String, refl, [], ◌∷◌, none}
use dep_customs.Policy.Value.{num, str, undefined}
use dep_customs.Policy.Value.Sample.{Sample, natural, sample_number}
use dep_customs.Policy.Expression.{
  Fields, Condition, leaf, all_of, Conditions, not_of, invalid, ok, type_error, evaluate_condition,
}
use dep_customs.Policy.Rules.{ResolvedRule}
use dep_customs.Policy.Decision.{
  allow, block, redirect, unspecified, CollectedViolation, EvaluatedPolicyDecision,
  evaluate_policy_decision,
}
use dep_customs.Policy.Decision.Outcome.{decided}
use dep_customs.Policy.Decision.Spec.{evaluate_policy_decision-specified}

abbrev fields : Fields Sample
fields = ("asset.version_age_days", num (natural 2)) ∷ []

abbrev rule_with : String → Condition Sample → ResolvedRule Sample
rule_with mode condition = record {
  id = "r1";
  rule_key = "young";
  policy_id = "p1";
  policy_rule_binding_id = "b1";
  policy_project_binding_id = none;
  policy_name = "baseline";
  name = "Young package";
  description = none;
  target_entity = "version";
  condition = condition;
  action = record {
    type = undefined;
    severity = str "high";
    code = str "TOO_YOUNG";
    message_template = str "{{asset.version_age_days}} days old";
    recommended_remediation = undefined;
    enforcement_mode = undefined;
  };
  effective_enforcement_mode = str mode;
  order_index = 0;
  policy_priority = 0;
}

abbrev young : Condition Sample
young = leaf "asset.version_age_days" "lt" (num (natural 7))

abbrev hard : ResolvedRule Sample
hard = rule_with "enforcing" young

abbrev soft : ResolvedRule Sample
soft = rule_with "advisory" young

abbrev broken : ResolvedRule Sample
broken =
    rule_with "enforcing" (all_of (Conditions.more young (Conditions.more invalid Conditions.nil)))

abbrev blocked_decision : EvaluatedPolicyDecision Sample
blocked_decision = decided (hard ∷ soft ∷ []) fields 60 redirect

abbrev advised_decision : EvaluatedPolicyDecision Sample
advised_decision = decided (soft ∷ []) fields 60 redirect

reasons :
    (blocked_decision.reason ≡ "TOO_YOUNG")
    × (blocked_decision.detail ≡ "2 days old")
    × (advised_decision.reason ≡ "advisory_only")
    × (advised_decision.cache_ttl ≡ 60)
unfolding dep_customs.Policy.Expression.evaluate_leaf dep_customs.Policy.Expression.get_field
    dep_customs.Policy.Expression.compare_present dep_customs.Policy.Value.less
    dep_customs.Policy.Decision.is_blocking dep_customs.Policy.Decision.message_of
    dep_customs.Policy.Expression.Template.render_template
    dep_customs.Policy.Expression.Template.match_ref
    dep_customs.Policy.Expression.Template.render_value dep_customs.Policy.Value.is_convertible
    dep_customs.Policy.Value.to_text
reasons = (refl, refl, refl, refl)

evaluate_policy_decision-specified_example :
    evaluate_policy_decision (hard ∷ soft ∷ []) fields 60 redirect ≡ ok blocked_decision
unfolding dep_customs.Policy.Expression.evaluate_leaf dep_customs.Policy.Expression.get_field
    dep_customs.Policy.Expression.compare_present dep_customs.Policy.Value.is_convertible
    dep_customs.Policy.Value.less dep_customs.Policy.Decision.is_blocking
evaluate_policy_decision-specified_example =
    evaluate_policy_decision-specified (hard ∷ soft ∷ []) fields 60 redirect (refl, (refl, tt))

-- a rule whose template an override has made a number
abbrev untemplated : ResolvedRule Sample
untemplated = record hard { action = record hard.action { message_template = num (natural 1) } }

untemplated_error :
    evaluate_policy_decision (soft ∷ untemplated ∷ []) fields 60 redirect ≡ type_error
unfolding evaluate_policy_decision dep_customs.Policy.Expression.evaluate_leaf
    dep_customs.Policy.Expression.get_field dep_customs.Policy.Expression.compare_present
    dep_customs.Policy.Value.less dep_customs.Policy.Decision.is_blocking
    dep_customs.Policy.Decision.message_of dep_customs.Policy.Value.is_convertible
    dep_customs.Policy.Value.is_truthy dep_customs.Policy.Decision.run_rules
    dep_customs.Policy.Decision.after_rule dep_customs.Policy.Expression.evaluate_condition
    dep_customs.Policy.Expression.evaluate
untemplated_error = refl
