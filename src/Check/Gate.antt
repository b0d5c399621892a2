-- ===== src/Check/Gate.antt =====
-- What it takes for `handleCheck` to let a package through, and when it must not.
use dep_customs.Prelude.{
  String, ◌≡◌, ◌≢◌, ◌⊎◌, refl, ap, subst, ◌∙◌, true, List, [], ◌∷◌, none, some, inl, inr, All, In,
  Bool-cases, Option-cases,
}
use dep_customs.Policy.Value.{JsNumber}
use dep_customs.Policy.Expression.{Eval, ok}
use dep_customs.Policy.Expression.Meaning.{IsValid}
use dep_customs.Policy.Rules.{ResolvedRule}
use dep_customs.Policy.Effective.{load_effective_policy}
use dep_customs.Policy.Decision.{
  Verdict, allow, block, EvaluatedPolicyDecision, evaluate_policy_decision,
}
use dep_customs.Policy.Decision.Laws.{Blocks, Eval-cases, decision-block_iff}
use dep_customs.Packages.{CanonicalPackageIdentity, canonicalize_package_identity}
use dep_customs.Tokens.{TokenRow, VerifiedProxyContext, load_authorized_project_token}
use dep_customs.Check.{
  CheckRequest, CheckOutcome, World, RecordedCheck, CheckContext, context_of, is_permitted, Checked,
  collect_connector_evaluation_fields, load_check_context, check_version, check_optional_version,
  check_identity, handle_check,
}

ok_injective : {A : Type 0} {a b : A} → ok a ≡ ok b → a ≡ b
ok_injective e = cc

pub List-cases :
    {A : Type 0} (xs : List A) → (xs ≡ []) ⊎ ((x : A) × (rest : List A) × (xs ≡ x ∷ rest))
List-cases [] = inl refl
List-cases (x ∷ xs) = inr (x, xs, refl)

-- A verdict that is not to allow is to block.
Verdict-elim : (v : Verdict) → (v ≡ allow → ⊥) → v ≡ block
Verdict-elim allow h = absurd (h refl)
Verdict-elim block h = refl

module _ {N : Type 0} ⦃js : JsNumber N⦄ (w : World N) where
  -- the parts of a check
  abbrev pub identity_of : CheckRequest → CanonicalPackageIdentity
  identity_of req =
      canonicalize_package_identity w.to_lower_case
        (record { ecosystem = req.ecosystem; pkg = req.pkg; version = some req.version })

  abbrev pub rules_for : CheckContext → List (ResolvedRule N)
  rules_for c =
      (load_effective_policy w.policies c.token_row.tenant_id c.token_row.project_id
        w.now).all_rules

  abbrev pub judge :
      CheckContext → CanonicalPackageIdentity → String → Eval (EvaluatedPolicyDecision N)
  judge c identity version =
      evaluate_policy_decision (rules_for c)
        (collect_connector_evaluation_fields w c.token_row.project_id identity version)
        c.default_cache_ttl c.serve_mode

  -- Rules apply, and their decision on the version is to allow it.
  pub record IsAllowed (c : CheckContext) (identity : CanonicalPackageIdentity) (version : String)
      : Type 0 where
    pub decision : EvaluatedPolicyDecision N
    pub judged : judge c identity version ≡ ok decision
    pub allowed : decision.decision ≡ allow
    pub has_rules : rules_for c ≢ []

  -- The token is accepted, the plan includes the ecosystem, and the request is for metadata or the
  -- rules allow the version.
  pub record IsCleared (proxy : VerifiedProxyContext) (req : CheckRequest) : Type 0 where
    pub row : TokenRow
    pub authorized :
        load_authorized_project_token w.hash_project_token w.projects w.tokens proxy
          req.project_token w.now
        ≡ some row
    pub permitted :
        is_permitted (context_of w.entitlements row).entitled_ecosystems (identity_of req).ecosystem
        ≡ true
    pub judged :
        ((identity_of req).version ≡ none)
        ⊎ ((version : String) × ((identity_of req).version ≡ some version)
            × IsAllowed (context_of w.entitlements row) (identity_of req) version)

  check_version-IsAllowed :
      (c : CheckContext) (identity : CanonicalPackageIdentity) (version : String)
      (outcome : CheckOutcome) (events : List (RecordedCheck N))
      → check_version w c identity version ≡ ok (outcome, events)
      → outcome.decision ≡ allow
      → IsAllowed c identity version
  unfolding check_version
  check_version-IsAllowed c identity version outcome events h a = elim (List-cases (rules_for c)) [
    | inl e ↦ let k = rw (e, check_version) at h in absurd (cc (k, a))
    | inr (r, rs, e) ↦ elim (Eval-cases (judge c identity version)) [
      | inl f ↦ let k = rw (e, check_version, ← e, f) at h in cc k
      | inr (d, f) ↦
          let k = rw (e, check_version, ← e, f) at h in
          record {
            decision = d;
            judged = f;
            allowed = ap (λ (x : Checked N). x.0.decision) (ok_injective k) ∙ a;
            has_rules = λ n. cc (e, n);
          }
    ]
  ]

  check_identity-IsCleared :
      (row : TokenRow) (proxy : VerifiedProxyContext) (req : CheckRequest) (outcome : CheckOutcome)
      (events : List (RecordedCheck N))
      → load_authorized_project_token w.hash_project_token w.projects w.tokens proxy
          req.project_token w.now
        ≡ some row
      → check_identity w (context_of w.entitlements row) (identity_of req) ≡ ok (outcome, events)
      → outcome.decision ≡ allow
      → IsCleared proxy req
  check_identity-IsCleared row proxy req outcome events l h a =
      let c = context_of w.entitlements row in
      elim (Bool-cases (is_permitted c.entitled_ecosystems (identity_of req).ecosystem)) [
        | inr e ↦ let k = rw e at h in absurd (cc (k, a))
        | inl e ↦ elim (Option-cases (identity_of req).version) [
          | inl n ↦ record { row = row; authorized = l; permitted = e; judged = inl n }
          | inr (v, n) ↦ record {
            row = row;
            authorized = l;
            permitted = e;
            judged = inr (
              v,
              n,
              check_version-IsAllowed c (identity_of req) v outcome events
                  (subst
                    (λ o. check_optional_version w c (identity_of req) o ≡ ok (outcome, events)) n
                    (rw e at h))
                  a,
            );
          }
        ]
      ]

  -- A package is only let through if the token is accepted, the tenant's plan includes the ecosystem,
  -- and the request has no version or some rules apply whose decision is to allow the version.
  pub handle_check-IsCleared :
      (proxy : VerifiedProxyContext) (req : CheckRequest) (outcome : CheckOutcome)
      (events : List (RecordedCheck N))
      → handle_check w proxy req ≡ ok (outcome, events)
      → outcome.decision ≡ allow
      → IsCleared proxy req
  unfolding handle_check load_check_context
  handle_check-IsCleared proxy req outcome events h a =
      elim (Option-cases (
        load_authorized_project_token w.hash_project_token w.projects w.tokens proxy
          req.project_token w.now)) [
            | inl n ↦ let k = rw (n, handle_check, load_check_context) at h in absurd (cc (k, a))
            | inr (row, l) ↦
                check_identity-IsCleared row proxy req outcome events l
                  (rw (l, handle_check, load_check_context) at h) a
          ]

  blocked-not-allowed :
      (proxy : VerifiedProxyContext) (req : CheckRequest) (row : TokenRow) (version : String)
      (r : ResolvedRule N)
      → (identity_of req).version ≡ some version
      → All
          (λ rule.
            IsValid
              (collect_connector_evaluation_fields w row.project_id (identity_of req) version)
              rule.condition)
          (rules_for (context_of w.entitlements row))
      → In r (rules_for (context_of w.entitlements row))
      → Blocks (collect_connector_evaluation_fields w row.project_id (identity_of req) version) r
      → ((identity_of req).version ≡ none)
        ⊎ ((other : String) × ((identity_of req).version ≡ some other)
            × IsAllowed (context_of w.entitlements row) (identity_of req) other)
      → ⊥
  blocked-not-allowed proxy req row version r v valid i b (inl n) = cc (n, v)
  blocked-not-allowed proxy req row version r v valid i b (inr (other, o, allowed)) =
      let c = context_of w.entitlements row in
      let same : other ≡ version = cc (o, v) in
      let judged : judge c (identity_of req) version ≡ ok allowed.decision =
        subst (λ x. judge c (identity_of req) x ≡ ok allowed.decision) same allowed.judged in
      let blocks =
        (decision-block_iff (rules_for c)
            (collect_connector_evaluation_fields w c.token_row.project_id (identity_of req) version)
            c.default_cache_ttl c.serve_mode allowed.decision valid judged).1
          (r, i, b) in
      cc (blocks, allowed.allowed)

  -- A blocking rule blocks: if a rule of the project's policies matches, is a violation rule and is
  -- enforcing, and no condition raises an error, the version is not let through.
  pub handle_check-Blocks :
      (proxy : VerifiedProxyContext) (req : CheckRequest) (row : TokenRow) (version : String)
      (r : ResolvedRule N) (outcome : CheckOutcome) (events : List (RecordedCheck N))
      → load_authorized_project_token w.hash_project_token w.projects w.tokens proxy
          req.project_token w.now
        ≡ some row
      → (identity_of req).version ≡ some version
      → All
          (λ rule.
            IsValid
              (collect_connector_evaluation_fields w row.project_id (identity_of req) version)
              rule.condition)
          (rules_for (context_of w.entitlements row))
      → In r (rules_for (context_of w.entitlements row))
      → Blocks (collect_connector_evaluation_fields w row.project_id (identity_of req) version) r
      → handle_check w proxy req ≡ ok (outcome, events)
      → outcome.decision ≡ block
  handle_check-Blocks proxy req row version r outcome events l v valid i b h =
      Verdict-elim outcome.decision λ a.
        let cleared = handle_check-IsCleared proxy req outcome events h a in
        let same : cleared.row ≡ row = cc (cleared.authorized, l) in
        blocked-not-allowed proxy req row version r v valid i b (
          subst
            (λ x.
              ((identity_of req).version ≡ none)
              ⊎ ((version : String) × ((identity_of req).version ≡ some version)
                  × IsAllowed (context_of w.entitlements x) (identity_of req) version))
            same cleared.judged)
