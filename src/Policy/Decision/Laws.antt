-- ===== src/Policy/Decision/Laws.antt =====
-- Consequences of the specification of `evaluatePolicyDecision`: when a package is blocked.
use dep_customs.Prelude.{
  ℕ, String, ◌≡◌, ◌≢◌, ◌↔◌, ◌⊎◌, refl, sym, ap, ◌∙◌, subst, no-In, map-In, In-map, Bool, true,
  false, List, [], ◌∷◌, ◌++◌, eq_iff, All, filter, inl, inr, arith, In, In-filter, filter-In,
  In-All, In-append_left, In-append_right, All-append,
}
use dep_customs.Policy.Value.{
  JsNumber, Value, undefined, null, bool, num, str, arr, obj, is_text_value,
}
use dep_customs.Policy.Expression.{Eval, ok, type_error, converted, Fields, evaluate_condition}
use dep_customs.Policy.Expression.Meaning.{IsValid, meaning, evaluate_condition-meaning}
use dep_customs.Policy.Rules.{ResolvedRule}
use dep_customs.Policy.Decision.{
  allow, block, ServeMode, unspecified, CollectedViolation, EvaluatedPolicyDecision, action_type,
  is_recorded, is_blocking, evaluate_policy_decision, after_rule, run_rules, Progress, start,
  violation_of,
}
use dep_customs.Policy.Decision.Outcome.{
  blocking, matching, decided, violation_in, is_explained, verdict_of, or_if_blocked,
}
use dep_customs.Policy.Decision.Spec.{evaluate_policy_decision-specified}

pub Eval-cases : {A : Type 0} (m : Eval A) → (m ≡ type_error) ⊎ ((a : A) × (m ≡ ok a))
Eval-cases type_error = inl refl
Eval-cases (ok a) = inr (a, refl)

converted-ok : {A : Type 0} (converts : Bool) {a b : A} → converted converts a ≡ ok b → a ≡ b
converted-ok true e = cc e
converted-ok false e = cc e

-- The rule matches, is a violation rule and is enforcing.
pub record Blocks {N : Type 0} ⦃js : JsNumber N⦄ (fields : Fields N) (rule : ResolvedRule N)
    : Type 0 where
  pub matches : meaning fields rule.condition ≡ true
  pub is_violation : action_type rule.action ≡ str "violation"
  pub is_enforcing : rule.effective_enforcement_mode ≡ str "enforcing"

module _ {N : Type 0} ⦃js : JsNumber N⦄ where
  verdict_iff :
      (bs : List (ResolvedRule N)) → (verdict_of bs ≡ block) ↔ ((r : ResolvedRule N) × In r bs)
  verdict_iff [] = ((λ e. cc), (λ r. absurd r.1))
  verdict_iff (b ∷ bs) = ((λ _. (b, inl refl)), (λ _. refl))

  is_text_value_iff : (s : String) (v : Value N) → (is_text_value s v ≡ true) ↔ (v ≡ str s)
  is_text_value_iff s (str t) = ((λ e. ap str ((eq_iff t s).0 e)), (λ e. (eq_iff t s).1 (cc e)))
  is_text_value_iff s undefined = ((λ e. cc e), (λ e. cc e))
  is_text_value_iff s null = ((λ e. cc e), (λ e. cc e))
  is_text_value_iff s (bool b) = ((λ e. cc e), (λ e. cc e))
  is_text_value_iff s (num n) = ((λ e. cc e), (λ e. cc e))
  is_text_value_iff s (arr items) = ((λ e. cc e), (λ e. cc e))
  is_text_value_iff s (obj ms) = ((λ e. cc e), (λ e. cc e))

  is_blocking_iff :
      (r : ResolvedRule N)
      → (is_blocking r ≡ true) ↔ (
          (action_type r.action ≡ str "violation")
          × (r.effective_enforcement_mode ≡ str "enforcing"))
  unfolding is_blocking
  is_blocking_iff r = ground (
    arith,
    is_text_value_iff "violation" (action_type r.action),
    is_text_value_iff "enforcing" r.effective_enforcement_mode,
  )

  blocking_iff :
      (fields : Fields N) (rules : List (ResolvedRule N)) (r : ResolvedRule N)
      → In r (blocking fields rules) ↔ (In r rules × Blocks fields r)
  blocking_iff fields rules r = (
    (λ i.
        let (j, b) = In-filter is_blocking r (matching fields rules) i in
        let (k, m) = In-filter (λ x. meaning fields x.condition) r rules j in
        let (v, e) = (is_blocking_iff r).0 b in
        (k, record { matches = m; is_violation = v; is_enforcing = e })),
    (λ p.
        filter-In is_blocking r (matching fields rules)
          (filter-In (λ x. meaning fields x.condition) r rules p.0 p.1.matches)
          ((is_blocking_iff r).1 (p.1.is_violation, p.1.is_enforcing))),
  )

  uncached :
      (bs : List (ResolvedRule N)) (ttl : ℕ) (mode : ServeMode)
      → verdict_of bs ≡ block
      → (or_if_blocked bs ttl 0 ≡ 0) × (or_if_blocked bs mode unspecified ≡ unspecified)
  uncached [] ttl mode e = cc
  uncached (b ∷ bs) ttl mode e = (refl, refl)

  -- the rules whose violations are reported
  abbrev recorded : Fields N → List (ResolvedRule N) → List (ResolvedRule N)
  recorded fields rules = filter (λ rule. is_recorded rule.action) (matching fields rules)

  recorded_iff :
      (fields : Fields N) (rules : List (ResolvedRule N)) (r : ResolvedRule N)
      → In r (recorded fields rules)
        ↔ (In r rules × ((meaning fields r.condition ≡ true) × (is_recorded r.action ≡ true)))
  recorded_iff fields rules r = (
    (λ i.
        let (j, b) = In-filter (λ x. is_recorded x.action) r (matching fields rules) i in
        let (k, m) = In-filter (λ x. meaning fields x.condition) r rules j in (k, (m, b))),
    (λ p.
        filter-In (λ x. is_recorded x.action) r (matching fields rules)
          (filter-In (λ x. meaning fields x.condition) r rules p.0 p.1.0) p.1.1),
  )

  is_recorded_violation :
      (r : ResolvedRule N) → action_type r.action ≡ str "violation" → is_recorded r.action ≡ true
  unfolding is_recorded
  is_recorded_violation r e = rw e

  blocked-violation_of :
      (fields : Fields N) (r : ResolvedRule N) → (violation_in fields r).blocked ≡ is_blocking r
  unfolding violation_of
  blocked-violation_of fields r = refl

  module _ (rules : List (ResolvedRule N)) (fields : Fields N) (ttl : ℕ) (mode : ServeMode)
      (d : EvaluatedPolicyDecision N) (valid : All (λ rule. IsValid fields rule.condition) rules)
      (returned : evaluate_policy_decision rules fields ttl mode ≡ ok d) where
    decision_eq : decided rules fields ttl mode ≡ d
    decision_eq =
        converted-ok (is_explained rules fields)
          (sym (evaluate_policy_decision-specified rules fields ttl mode valid) ∙ returned)

    -- A package is blocked exactly when some rule matches, is a violation rule and is enforcing.
    pub decision-block_iff :
        (d.decision ≡ block) ↔ ((r : ResolvedRule N) × In r rules × Blocks fields r)
    decision-block_iff = (
      (λ e.
          let (r, i) =
            (verdict_iff (blocking fields rules)).0 (ap (λ x. x.decision) decision_eq ∙ e) in
          let (j, b) = (blocking_iff fields rules r).0 i in (r, j, b)),
      (λ p.
          sym (ap (λ x. x.decision) decision_eq)
          ∙ (verdict_iff (blocking fields rules)).1
              (p.0, (blocking_iff fields rules p.0).1 (p.1, p.2))),
    )

    -- If no rule is enforcing, the package is allowed, with the default caching and serve mode.
    pub decision_soft :
        All (λ r. r.effective_enforcement_mode ≢ str "enforcing") rules
        → (d.decision ≡ allow) × (d.cache_ttl ≡ ttl) × (d.serve_mode ≡ mode)
    decision_soft soft =
        let none_blocks : blocking fields rules ≡ [] = no-In _ λ r i.
          let (j, b) = (blocking_iff fields rules r).0 i in
          In-All _ r rules soft j b.is_enforcing in
        (
          sym (ap (λ x. x.decision) decision_eq) ∙ ap verdict_of none_blocks,
          sym (ap (λ x. x.cache_ttl) decision_eq) ∙ ap (λ bs. or_if_blocked bs ttl 0) none_blocks,
          sym (ap (λ x. x.serve_mode) decision_eq)
              ∙ ap (λ bs. or_if_blocked bs mode unspecified) none_blocks,
        )

    -- A block is never cached and has no serve mode.
    pub decision_block_uncached :
        d.decision ≡ block → (d.cache_ttl ≡ 0) × (d.serve_mode ≡ unspecified)
    decision_block_uncached e =
        let (t, m) =
          uncached (blocking fields rules) ttl mode (ap (λ x. x.decision) decision_eq ∙ e) in
        (sym (ap (λ x. x.cache_ttl) decision_eq) ∙ t, sym (ap (λ x. x.serve_mode) decision_eq) ∙ m)

    -- A package is blocked exactly when one of the violations that are reported is marked as blocked.
    decision-block_iff_reported :
        (d.decision ≡ block)
        ↔ ((v : CollectedViolation N) × In v d.collected_violations × (v.blocked ≡ true))
    decision-block_iff_reported = (
      (λ e.
          let (r, i, b) = decision-block_iff.0 e in
          (
            violation_in fields r,
            subst (In (violation_in fields r)) (ap (λ x. x.collected_violations) decision_eq) (
                map-In (violation_in fields) r (recorded fields rules) (
                  (recorded_iff fields rules r).1
                    (i, (b.matches, is_recorded_violation r b.is_violation)))),
            blocked-violation_of fields r ∙ (is_blocking_iff r).1 (b.is_violation, b.is_enforcing),
          )),
      (λ p.
          let (v, i, b) = p in
          let (r, j, q) =
            In-map (violation_in fields) v (recorded fields rules)
              (subst (In v) (sym (ap (λ x. x.collected_violations) decision_eq)) i) in
          let (k, mb) = (recorded_iff fields rules r).0 j in
          let (viol, enf) =
            (is_blocking_iff r).0
              (sym (blocked-violation_of fields r) ∙ ap (λ x. x.blocked) (sym q) ∙ b) in
          decision-block_iff.1
            (r, k, record { matches = mb.0; is_violation = viol; is_enforcing = enf })),
    )

  -- More rules, in front or behind, never turn a block into an allow.
  decision_monotone :
      (before rules after : List (ResolvedRule N)) (fields : Fields N) (ttl : ℕ) (mode : ServeMode)
      (d d' : EvaluatedPolicyDecision N)
      → All (λ rule. IsValid fields rule.condition) before
      → All (λ rule. IsValid fields rule.condition) rules
      → All (λ rule. IsValid fields rule.condition) after
      → evaluate_policy_decision rules fields ttl mode ≡ ok d
      → evaluate_policy_decision (before ++ rules ++ after) fields ttl mode ≡ ok d'
      → d.decision ≡ block
      → d'.decision ≡ block
  decision_monotone before rules after fields ttl mode d d' vb vr va e e' h =
      let (r, i, b) = (decision-block_iff rules fields ttl mode d vr e).0 h in
      let v = All-append _ (before ++ rules) after (All-append _ before rules vb vr) va in
      (decision-block_iff (before ++ rules ++ after) fields ttl mode d' v e').1
        (r, In-append_left r _ after (In-append_right r before rules i), b)

  run_rules_error :
      (before after : List (ResolvedRule N)) (r : ResolvedRule N) (fields : Fields N)
      (p : Progress N)
      → All (λ rule. IsValid fields rule.condition) before
      → evaluate_condition r.condition fields ≡ type_error
      → run_rules fields (before ++ r ∷ after) p ≡ type_error
  unfolding run_rules
  run_rules_error [] after r fields p v e = rw e
  run_rules_error (b ∷ before) after r fields p (v, vs) e =
      rw (evaluate_condition-meaning b.condition fields v)
        (elim (Eval-cases (after_rule fields b p (meaning fields b.condition))) [
          | inl f ↦ rw f refl
          | inr (q, f) ↦ rw f (run_rules_error before after r fields q vs e)
        ])

  -- A rule whose condition raises a `TypeError` makes the whole decision raise it, whatever the rules
  -- in front of it, which are valid, have decided.
  decision_error :
      (before after : List (ResolvedRule N)) (r : ResolvedRule N) (fields : Fields N) (ttl : ℕ)
      (mode : ServeMode)
      → All (λ rule. IsValid fields rule.condition) before
      → evaluate_condition r.condition fields ≡ type_error
      → evaluate_policy_decision (before ++ r ∷ after) fields ttl mode ≡ type_error
  unfolding evaluate_policy_decision
  decision_error before after r fields ttl mode v e =
      rw (run_rules_error before after r fields (start ttl mode) v e)
