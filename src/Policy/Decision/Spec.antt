-- ===== src/Policy/Decision/Spec.antt =====
-- The loop of `evaluatePolicyDecision` returns what is specified.
use mathlib.Core.List.{append-nil, append_assoc, map-append}
use dep_customs.Prelude.{
  keep, filter-append, length-append, filter-keep, ℕ, ◌+◌, ◌≡◌, refl, ap, sym, ◌∙◌, Bool, true,
  false, not, ◌&&◌, List, [], ◌∷◌, ◌++◌, str_eq, if◌then◌else◌, All, all, filter, map, length,
  Bool-cases, inl, inr,
}
use dep_customs.Policy.Value.{
  JsNumber, Value, undefined, null, bool, num, str, arr, obj, is_truthy, is_convertible,
}
use dep_customs.Policy.Expression.{ok, type_error, value_or, converted, Fields}
use dep_customs.Policy.Expression.Meaning.{IsValid, meaning, evaluate_condition-meaning}
use dep_customs.Policy.Rules.{ResolvedRule}
use dep_customs.Policy.Decision.{
  ServeMode, unspecified, Progress, is_recorded, is_blocking, blocking_code, default_message,
  message_with, message_of, record_match, first_block, apply_block, matched_rule, after_rule,
  run_rules, finish, evaluate_policy_decision,
}
use dep_customs.Policy.Decision.Outcome.{
  matching, blocking, has_template, verdict_of, reason_of, has_message, message_text, detail_of,
  first_detail, or_if_blocked, violation_in, specified,
}

module _ {N : Type 0} ⦃js : JsNumber N⦄ where
  -- the loop's variables after some rules, of which `bs` block, `ms` match and `rs` are recorded
  abbrev progress_from :
      Fields N → ℕ → ServeMode → (bs ms rs : List (ResolvedRule N)) → ℕ → Progress N
  progress_from fields ttl mode bs ms rs n = record {
    decision = verdict_of bs;
    detail = first_detail fields bs;
    cache_ttl = or_if_blocked bs ttl 0;
    serve_mode = or_if_blocked bs mode unspecified;
    blocking_reason_codes = map blocking_code bs;
    collected_violations = map (violation_in fields) rs;
    rules_evaluated = n;
    rules_matched = length ms;
  }

  message_of-text :
      (fields : Fields N) (rule : ResolvedRule N)
      → message_of fields rule ≡ converted (has_message rule) (message_text fields rule)
  unfolding message_of
  message_of-text fields rule = of_template rule.action.message_template
    where
      untemplated :
          (t : Bool)
          → (if t then type_error else ok (default_message rule))
            ≡ converted (not t) (value_or "" (if t then type_error else ok (default_message rule)))
      untemplated true = refl
      untemplated false = refl

      of_template :
          (v : Value N)
          → message_with fields rule v
            ≡ converted (has_template v) (value_or "" (message_with fields rule v))
      of_template (str template) = elim (Bool-cases (str_eq template "")) [
        | inl e ↦ rw e refl
        | inr e ↦ rw e refl
      ]
      of_template undefined = untemplated (is_truthy {N = N} undefined)
      of_template null = untemplated (is_truthy {N = N} null)
      of_template (bool b) = untemplated (is_truthy {N = N} (bool b))
      of_template (num n) = untemplated (is_truthy (num n))
      of_template (arr items) = untemplated (is_truthy (arr items))
      of_template (obj ms) = untemplated (is_truthy (obj ms))

  module _ (fields : Fields N) (ttl : ℕ) (mode : ServeMode) where
    record_match-progress :
        (rule : ResolvedRule N) (bs ms rs : List (ResolvedRule N)) (n : ℕ)
        → record_match rule (message_text fields rule) (progress_from fields ttl mode bs ms rs n)
          ≡ progress_from fields ttl mode bs ms (rs ++ keep (is_recorded rule.action) rule) n
    unfolding record_match
    record_match-progress rule bs ms rs n = elim (Bool-cases (is_recorded rule.action)) [
      | inl e ↦ rw e (simp map-append)
      | inr e ↦ rw e (simp append-nil)
    ]

    apply_block-progress :
        (rule : ResolvedRule N) (bs ms rs : List (ResolvedRule N)) (n : ℕ)
        → apply_block rule (message_text fields rule) (progress_from fields ttl mode bs ms rs n)
          ≡ progress_from fields ttl mode (bs ++ keep (is_blocking rule) rule) ms rs n
    unfolding apply_block first_block
    apply_block-progress rule [] ms rs n = elim (Bool-cases (is_blocking rule)) [
      | inl e ↦ rw e
      | inr e ↦ rw e
    ]
    apply_block-progress rule (b ∷ bs) ms rs n = elim (Bool-cases (is_blocking rule)) [
      | inl e ↦ rw e (simp map-append)
      | inr e ↦ rw e (simp append-nil)
    ]

    matched_rule-progress :
        (rule : ResolvedRule N) (bs ms rs : List (ResolvedRule N)) (n : ℕ)
        → matched_rule rule (message_text fields rule) (progress_from fields ttl mode bs ms rs n)
          ≡ progress_from fields ttl mode
              (bs ++ keep (is_blocking rule) rule)
              (ms ++ rule ∷ [])
              (rs ++ keep (is_recorded rule.action) rule)
              n
    matched_rule-progress rule bs ms rs n =
        ap
          (λ k. apply_block rule (message_text fields rule) (
            record_match rule (message_text fields rule)
              (record (progress_from fields ttl mode bs ms rs n) { rules_matched = k })))
          (sym (length-append ms (rule ∷ [])))
        ∙ ap (apply_block rule (message_text fields rule))
            (record_match-progress rule bs (ms ++ rule ∷ []) rs n)
        ∙ apply_block-progress rule bs (ms ++ rule ∷ []) (rs ++ keep (is_recorded rule.action) rule)
            n

    after_rule-progress :
        (rule : ResolvedRule N) (bs ms rs : List (ResolvedRule N)) (n : ℕ) (m : Bool)
        → after_rule fields rule (progress_from fields ttl mode bs ms rs n) m
          ≡ converted (if m then has_message rule else true) (
              progress_from fields ttl mode
                (bs ++ keep (m && is_blocking rule) rule)
                (ms ++ keep m rule)
                (rs ++ keep (m && is_recorded rule.action) rule)
                (n + 1))
    unfolding after_rule
    after_rule-progress rule bs ms rs n false = simp append-nil
    after_rule-progress rule bs ms rs n true =
        rw (message_of-text fields rule) (elim (Bool-cases (has_message rule)) [
          | inl e ↦ rw e (ap ok (matched_rule-progress rule bs ms rs (n + 1)))
          | inr e ↦ rw e refl
        ])

    -- the loop's variables after some rules
    abbrev after : List (ResolvedRule N) → Progress N
    after done =
        progress_from fields ttl mode (blocking fields done) (matching fields done)
          (filter (λ rule. is_recorded rule.action) (matching fields done)) (length done)

    after-append :
        (rule : ResolvedRule N) (done : List (ResolvedRule N))
        → after_rule fields rule (after done) (meaning fields rule.condition)
          ≡ converted
              (if meaning fields rule.condition then has_message rule else true)
              (after (done ++ rule ∷ []))
    after-append rule done =
        after_rule-progress rule _ _ _ _ _ ∙ simp (filter-append, length-append, filter-keep)

    all-matching :
        (rule : ResolvedRule N) (rules : List (ResolvedRule N))
        → all has_message (matching fields (rule ∷ rules)) ≡ (
            (if meaning fields rule.condition then has_message rule else true)
            && all has_message (matching fields rules))
    all-matching rule rules = elim (Bool-cases (meaning fields rule.condition)) [
      | inl e ↦ rw e refl
      | inr e ↦ rw e refl
    ]

    run_rules-after :
        (done rules : List (ResolvedRule N))
        → All (λ rule. IsValid fields rule.condition) rules
        → run_rules fields rules (after done)
          ≡ converted (all has_message (matching fields rules)) (after (done ++ rules))
    unfolding run_rules
    run_rules-after done [] v = simp append-nil
    run_rules-after done (rule ∷ rules) (v, vs) =
        rw (evaluate_condition-meaning rule.condition fields v) (
          rw (after-append rule done, all-matching rule rules)
            (elim (Bool-cases (if meaning fields rule.condition then has_message rule else true)) [
              | inr e ↦ rw e refl
              | inl e ↦ rw e (
                  run_rules-after (done ++ rule ∷ []) rules vs
                  ∙ ap (λ l. converted (all has_message (matching fields rules)) (after l))
                      (append_assoc done (rule ∷ []) rules))
            ]))

  finish-progress :
      (fields : Fields N) (ttl : ℕ) (mode : ServeMode) (bs ms rs : List (ResolvedRule N)) (n : ℕ)
      → finish (progress_from fields ttl mode bs ms rs n)
        ≡ converted (all is_convertible (map blocking_code bs)) (record {
          decision = verdict_of bs;
          reason = reason_of bs (length ms);
          detail = detail_of fields bs (length ms);
          cache_ttl = or_if_blocked bs ttl 0;
          serve_mode = or_if_blocked bs mode unspecified;
          rules_evaluated = n;
          rules_matched = length ms;
          collected_violations = map (violation_in fields) rs;
        })
  unfolding finish
  finish-progress fields ttl mode [] ms rs n = refl
  finish-progress fields ttl mode (b ∷ bs) ms rs n =
      elim (Bool-cases (all is_convertible (map blocking_code (b ∷ bs)))) [
        | inl e ↦ rw e refl
        | inr e ↦ rw e refl
      ]

  -- With conditions that raise no error the loop returns what is specified: the package is blocked
  -- exactly when some matching violation rule is enforcing, for the codes of all such rules, with
  -- the message of the first, no caching and no serve mode; the counts and the recorded violations
  -- are those of the matching rules. It raises an error exactly when the template of a matching rule
  -- is a value other than a text that does not count as none, or the code of a blocking rule is no
  -- text and does not convert to one.
  pub evaluate_policy_decision-specified :
      (rules : List (ResolvedRule N)) (fields : Fields N) (ttl : ℕ) (mode : ServeMode)
      → All (λ rule. IsValid fields rule.condition) rules
      → evaluate_policy_decision rules fields ttl mode ≡ specified rules fields ttl mode
  unfolding evaluate_policy_decision
  evaluate_policy_decision-specified rules fields ttl mode v =
      rw (run_rules-after fields ttl mode [] rules v)
        (elim (Bool-cases (all has_message (matching fields rules))) [
          | inr e ↦ rw e refl
          | inl e ↦ rw e (finish-progress fields ttl mode (blocking fields rules) _ _ _)
        ])
