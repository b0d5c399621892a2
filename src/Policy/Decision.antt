-- ===== src/Policy/Decision.antt =====
-- `evaluatePolicyDecision` of services/api/src/connect/check-service.ts: the rules of the effective
-- policy are evaluated in their order, and one that matches in enforcing mode blocks the package.
pub mod Outcome
pub mod Spec
pub mod Laws
pub mod Tests
use dep_customs.Prelude.{
  ℕ, ◌+◌, String, Bool, true, false, ◌&&◌, ◌||◌, List, [], ◌∷◌, ◌++◌, Option, str_eq, concat, join,
  map, all, ◌==◌, if◌then◌else◌,
}
use dep_customs.Policy.Value.{
  JsNumber, Value, null, str, or_value, is_text_value, is_truthy, is_convertible, to_text,
}
use dep_customs.Policy.Expression.{
  Eval, ok, type_error, ◌>>=◌, converted, Fields, evaluate_condition,
}
use dep_customs.Policy.Expression.Template.{render_template}
use dep_customs.Policy.Rules.{RuleAction, ResolvedRule}

-- connect/shared.ts: DECISION_ALLOW and DECISION_BLOCK
pub data Verdict : Type 0 where
  allow block : Verdict

pub data ServeMode : Type 0 where
  unspecified redirect pull : ServeMode

pub record CollectedViolation (N : Type 0) : Type 0 where
  pub rule_id : String
  pub rule_key : String
  pub policy_id : String
  pub policy_rule_binding_id : String
  pub policy_project_binding_id : Option String
  pub recommended_remediation : Value N
  pub severity : Value N
  pub code : Value N
  pub message : String
  pub enforcement_mode : Value N
  pub blocked : Bool

pub record EvaluatedPolicyDecision (N : Type 0) : Type 0 where
  pub decision : Verdict
  pub reason : String
  pub detail : String
  pub cache_ttl : ℕ
  pub serve_mode : ServeMode
  pub rules_evaluated : ℕ
  pub rules_matched : ℕ
  pub collected_violations : List (CollectedViolation N)

abbrev pub is_allow : Verdict → Bool
is_allow allow = true
is_allow block = false

-- the variables of the loop
pub record Progress (N : Type 0) : Type 0 where
  pub decision : Verdict
  pub detail : String
  pub cache_ttl : ℕ
  pub serve_mode : ServeMode
  pub blocking_reason_codes : List (Value N)
  pub collected_violations : List (CollectedViolation N)
  pub rules_evaluated : ℕ
  pub rules_matched : ℕ

module _ {N : Type 0} where
  abbrev pub start : ℕ → ServeMode → Progress N
  start default_cache_ttl default_serve_mode = record {
    decision = allow;
    detail = "No policy rules matched";
    cache_ttl = default_cache_ttl;
    serve_mode = default_serve_mode;
    blocking_reason_codes = [];
    collected_violations = [];
    rules_evaluated = 0;
    rules_matched = 0;
  }

  abbrev pub action_type : RuleAction N → Value N
  action_type action = or_value action.type (str "violation")

  -- the action types that are recorded
  unfoldable pub is_recorded : RuleAction N → Bool
  is_recorded action =
      is_text_value "violation" (action_type action)
      || is_text_value "warning" (action_type action)
      || is_text_value "info" (action_type action)

  -- `actionType === "violation" && enfMode === "enforcing"`
  unfoldable pub is_blocking : ResolvedRule N → Bool
  is_blocking rule =
      is_text_value "violation" (action_type rule.action)
      && is_text_value "enforcing" rule.effective_enforcement_mode

  abbrev pub blocking_code : ResolvedRule N → Value N
  blocking_code rule = or_value rule.action.code (str "policy_violation")

  unfoldable pub violation_of : ResolvedRule N → (message : String) → CollectedViolation N
  violation_of rule message = record {
    rule_id = rule.id;
    rule_key = rule.rule_key;
    policy_id = rule.policy_id;
    policy_rule_binding_id = rule.policy_rule_binding_id;
    policy_project_binding_id = rule.policy_project_binding_id;
    recommended_remediation = or_value rule.action.recommended_remediation null;
    severity = or_value rule.action.severity (str "high");
    code = or_value rule.action.code (str "RULE_MATCHED");
    message = message;
    enforcement_mode = rule.effective_enforcement_mode;
    blocked = is_blocking rule;
  }

  unfoldable pub record_match : ResolvedRule N → (message : String) → Progress N → Progress N
  record_match rule message p =
      if is_recorded rule.action
      then record p {
        collected_violations = p.collected_violations ++ violation_of rule message ∷ [];
      }
      else p

  -- what the first blocking rule sets
  unfoldable pub first_block : (message : String) → Progress N → Progress N
  first_block message p =
      if is_allow p.decision
      then record p { detail = message; cache_ttl = 0; serve_mode = unspecified }
      else p

  unfoldable pub apply_block : ResolvedRule N → (message : String) → Progress N → Progress N
  apply_block rule message p =
      if is_blocking rule
      then (let q = first_block message p in
          record q {
            decision = block;
            blocking_reason_codes = q.blocking_reason_codes ++ blocking_code rule ∷ [];
          })
      else p

module _ {N : Type 0} ⦃js : JsNumber N⦄ where
  abbrev pub default_message : ResolvedRule N → String
  default_message rule = concat ("Rule \"" ∷ rule.name ∷ "\" matched" ∷ [])

  -- A template that is truthy and no text has no function `replace`, of which the call raises a
  -- TypeError.
  abbrev pub message_with : Fields N → ResolvedRule N → Value N → Eval String
  message_with fields rule (str template) =
      if str_eq template "" then ok (default_message rule) else ok (render_template template fields)
  message_with fields rule template =
      if is_truthy template then type_error else ok (default_message rule)

  unfoldable pub message_of : Fields N → ResolvedRule N → Eval String
  message_of fields rule = message_with fields rule rule.action.message_template

  -- what the loop does for a rule that matches
  abbrev pub matched_rule : ResolvedRule N → (message : String) → Progress N → Progress N
  matched_rule rule message p =
      apply_block rule message
        (record_match rule message (record p { rules_matched = p.rules_matched + 1 }))

  -- one round of the loop, for the answer of the rule's condition
  unfoldable pub after_rule : Fields N → ResolvedRule N → Progress N → Bool → Eval (Progress N)
  after_rule fields rule p matched =
      let q = record p { rules_evaluated = p.rules_evaluated + 1 } in
      if matched
      then (message_of fields rule >>= λ message. ok (matched_rule rule message q))
      else ok q

  unfoldable pub run_rules : Fields N → List (ResolvedRule N) → Progress N → Eval (Progress N)
  run_rules fields [] p = ok p
  run_rules fields (rule ∷ rules) p = evaluate_condition rule.condition fields >>= λ matched.
      after_rule fields rule p matched >>= λ q. run_rules fields rules q

  -- `codes.join(",")`, of values that are not null
  unfoldable pub join_codes : List (Value N) → Eval String
  join_codes codes = converted (all is_convertible codes) (join "," (map to_text codes))

  -- the reason and the detail, once every rule has been evaluated
  unfoldable pub final_reason : Progress N → Eval String
  unfolding join_codes
  final_reason p = elim p.decision [
    | block ↦ join_codes p.blocking_reason_codes
    | allow ↦ ok (if p.rules_matched == 0 then "allowed" else "advisory_only")
  ]

  unfoldable pub final_detail : Progress N → String
  final_detail p = elim p.decision [
    | block ↦ p.detail
    | allow ↦
        if p.rules_matched == 0
        then "No policy rules matched — package allowed"
        else "Rules matched in advisory mode only — package allowed"
  ]

  unfoldable pub finish : Progress N → Eval (EvaluatedPolicyDecision N)
  unfolding final_reason final_detail
  finish p = final_reason p >>= λ reason. ok (record {
    decision = p.decision;
    reason = reason;
    detail = final_detail p;
    cache_ttl = p.cache_ttl;
    serve_mode = p.serve_mode;
    rules_evaluated = p.rules_evaluated;
    rules_matched = p.rules_matched;
    collected_violations = p.collected_violations;
  })

  unfoldable pub evaluate_policy_decision :
      List (ResolvedRule N) → Fields N → ℕ → ServeMode → Eval (EvaluatedPolicyDecision N)
  evaluate_policy_decision rules fields default_cache_ttl default_serve_mode =
      run_rules fields rules (start default_cache_ttl default_serve_mode) >>= λ p. finish p
