-- ===== src/Policy/Decision/Outcome.antt =====
-- What `evaluatePolicyDecision` promises, without its loop: the rules that match, those of them that
-- block, and what is reported of them.
use dep_customs.Prelude.{
  ℕ, String, Bool, true, not, ◌&&◌, List, [], ◌∷◌, join, ◌==◌, if◌then◌else◌, all, filter, map,
  length,
}
use dep_customs.Policy.Value.{JsNumber, Value, str, to_text, is_truthy, is_convertible}
use dep_customs.Policy.Expression.{Eval, value_or, converted, Fields}
use dep_customs.Policy.Expression.Meaning.{meaning}
use dep_customs.Policy.Rules.{ResolvedRule}
use dep_customs.Policy.Decision.{
  Verdict, allow, block, ServeMode, unspecified, CollectedViolation, EvaluatedPolicyDecision,
  is_recorded, is_blocking, blocking_code, message_of, violation_of,
}

module _ {N : Type 0} ⦃js : JsNumber N⦄ where
  abbrev pub matching : Fields N → List (ResolvedRule N) → List (ResolvedRule N)
  matching fields = filter (λ rule. meaning fields rule.condition)

  abbrev pub blocking : Fields N → List (ResolvedRule N) → List (ResolvedRule N)
  blocking fields rules = filter is_blocking (matching fields rules)

  abbrev pub has_template : Value N → Bool
  has_template (str _) = true
  has_template v = not (is_truthy v)

  -- what a decision is made of, for the blocking rules and the number of matching rules
  abbrev pub verdict_of : List (ResolvedRule N) → Verdict
  verdict_of [] = allow
  verdict_of (r ∷ rs) = block

  abbrev pub reason_of : List (ResolvedRule N) → ℕ → String
  reason_of [] matched = if matched == 0 then "allowed" else "advisory_only"
  reason_of (r ∷ rs) matched = join "," (map to_text (map blocking_code (r ∷ rs)))

  -- The template of a rule's message is a text, or counts as none.
  abbrev pub has_message : ResolvedRule N → Bool
  has_message rule = has_template rule.action.message_template

  -- the message of a rule that has one
  abbrev pub message_text : Fields N → ResolvedRule N → String
  message_text fields rule = value_or "" (message_of fields rule)

  abbrev pub detail_of : Fields N → List (ResolvedRule N) → ℕ → String
  detail_of fields [] matched =
      if matched == 0
      then "No policy rules matched — package allowed"
      else "Rules matched in advisory mode only — package allowed"
  detail_of fields (r ∷ rs) matched = message_text fields r

  abbrev pub first_detail : Fields N → List (ResolvedRule N) → String
  first_detail fields [] = "No policy rules matched"
  first_detail fields (r ∷ rs) = message_text fields r

  abbrev pub or_if_blocked {ℓ} : {A : Type ℓ} → List (ResolvedRule N) → A → A → A
  or_if_blocked [] default blocked = default
  or_if_blocked (r ∷ rs) default blocked = blocked

  abbrev pub violation_in : Fields N → ResolvedRule N → CollectedViolation N
  violation_in fields rule = violation_of rule (message_text fields rule)

  -- the decision, if the messages and the codes that it needs can be made texts
  abbrev pub decided : List (ResolvedRule N) → Fields N → ℕ → ServeMode → EvaluatedPolicyDecision N
  decided rules fields default_cache_ttl default_serve_mode =
      let blocks = blocking fields rules in
      let matched = length (matching fields rules) in
      record {
        decision = verdict_of blocks;
        reason = reason_of blocks matched;
        detail = detail_of fields blocks matched;
        cache_ttl = or_if_blocked blocks default_cache_ttl 0;
        serve_mode = or_if_blocked blocks default_serve_mode unspecified;
        rules_evaluated = length rules;
        rules_matched = matched;
        collected_violations =
            map (violation_in fields)
              (filter (λ rule. is_recorded rule.action) (matching fields rules));
      }

  -- Each rule that matches has a message, and the codes of the blocking rules convert to texts.
  abbrev pub is_explained : List (ResolvedRule N) → Fields N → Bool
  is_explained rules fields =
      all has_message (matching fields rules)
      && all is_convertible (map blocking_code (blocking fields rules))

  abbrev pub specified :
      List (ResolvedRule N) → Fields N → ℕ → ServeMode → Eval (EvaluatedPolicyDecision N)
  specified rules fields default_cache_ttl default_serve_mode =
      converted (is_explained rules fields)
        (decided rules fields default_cache_ttl default_serve_mode)
