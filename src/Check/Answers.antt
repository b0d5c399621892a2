-- ===== src/Check/Answers.antt =====
-- When `handleCheck` answers, and what it answers without an accepted token.
use dep_customs.Prelude.{
  ℕ, String, ◌≡◌, refl, ◌∙◌, Bool, true, List, [], ◌∷◌, Option, none, some, inl, inr, All, all,
  filter, map, In, Bool-cases, Option-cases,
}
use dep_customs.Policy.Value.{JsNumber, is_convertible}
use dep_customs.Policy.Expression.{ok, Fields}
use dep_customs.Policy.Expression.Meaning.{IsValid, meaning}
use dep_customs.Policy.Rules.{ResolvedRule}
use dep_customs.Policy.Decision.{
  ServeMode, EvaluatedPolicyDecision, evaluate_policy_decision, is_blocking, blocking_code,
}
use dep_customs.Policy.Decision.Outcome.{matching, blocking, has_message, decided}
use dep_customs.Policy.Decision.Spec.{evaluate_policy_decision-specified}
use dep_customs.Packages.{CanonicalPackageIdentity}
use dep_customs.Tokens.{
  TokenRow, VerifiedProxyContext, is_token, revoke_project_token, load_authorized_project_token,
}
use dep_customs.Tokens.Lifecycle.{Steps}
use dep_customs.Tokens.Authorized.{
  AreUnique, revoke_project_token_final, load_authorized_project_token_accepted,
}
use dep_customs.Check.{
  CheckRequest, World, CheckContext, context_of, is_permitted, invalid_token, no_policy,
  not_permitted, metadata_request, evaluated, Checked, collect_connector_evaluation_fields,
  load_check_context, check_version, check_optional_version, check_identity, handle_check,
}
use dep_customs.Check.Gate.{identity_of, rules_for, judge, List-cases}

-- The rule raises no error on the fields, whether it matches or not.
pub record IsSound {N : Type 0} ⦃js : JsNumber N⦄ (fields : Fields N) (rule : ResolvedRule N)
    : Type 0 where
  pub valid : IsValid fields rule.condition
  pub has_message_text : has_message rule ≡ true
  pub has_code_text : is_convertible (blocking_code rule) ≡ true

module _ {N : Type 0} ⦃js : JsNumber N⦄ where
  All-filter :
      (P : ResolvedRule N → Type 0) (p : ResolvedRule N → Bool) (rules : List (ResolvedRule N))
      → All P rules
      → All P (filter p rules)
  All-filter P p [] h = tt
  All-filter P p (r ∷ rules) (h, hs) = elim (Bool-cases (p r)) [
    | inl e ↦ rw e (h, All-filter P p rules hs)
    | inr e ↦ rw e (All-filter P p rules hs)
  ]

  all_messages :
      (fields : Fields N) (rules : List (ResolvedRule N))
      → All (IsSound fields) rules
      → all has_message rules ≡ true
  all_messages fields [] h = refl
  all_messages fields (r ∷ rules) (h, hs) =
      rw (h.has_message_text, all_messages fields rules hs) refl

  all_codes :
      (fields : Fields N) (rules : List (ResolvedRule N))
      → All (IsSound fields) rules
      → all is_convertible (map blocking_code rules) ≡ true
  all_codes fields [] h = refl
  all_codes fields (r ∷ rules) (h, hs) = rw (h.has_code_text, all_codes fields rules hs) refl

  All-IsValid :
      (fields : Fields N) (rules : List (ResolvedRule N))
      → All (IsSound fields) rules
      → All (λ rule. IsValid fields rule.condition) rules
  All-IsValid fields [] h = tt
  All-IsValid fields (r ∷ rules) (h, hs) = (h.valid, All-IsValid fields rules hs)

  answerable-decided :
      (rules : List (ResolvedRule N)) (fields : Fields N) (ttl : ℕ) (mode : ServeMode)
      → All (IsSound fields) rules
      → evaluate_policy_decision rules fields ttl mode ≡ ok (decided rules fields ttl mode)
  answerable-decided rules fields ttl mode sound =
      let matched = All-filter (IsSound fields) (λ r. meaning fields r.condition) rules sound in
      let blocks = All-filter (IsSound fields) is_blocking (matching fields rules) matched in
      evaluate_policy_decision-specified rules fields ttl mode (All-IsValid fields rules sound)
      ∙ rw
          (
            all_messages fields (matching fields rules) matched,
            all_codes fields (blocking fields rules) blocks,
          )
          refl

module _ {N : Type 0} ⦃js : JsNumber N⦄ (w : World N) where
  -- No rule in force raises an error on the fields of the version.
  abbrev pub IsAnswerable : CheckContext → CanonicalPackageIdentity → (version : String) → Type 0
  IsAnswerable c identity version =
      All (IsSound (collect_connector_evaluation_fields w c.token_row.project_id identity version))
        (rules_for w c)

  -- Without an accepted token the answer is a block that is not cached, and nothing is recorded.
  pub handle_check_unauthorized :
      (proxy : VerifiedProxyContext) (req : CheckRequest)
      → load_authorized_project_token w.hash_project_token w.projects w.tokens proxy
          req.project_token w.now
        ≡ none
      → handle_check w proxy req ≡ ok (invalid_token, [])
  unfolding handle_check load_check_context
  handle_check_unauthorized proxy req n = rw (n, handle_check, load_check_context) refl

  -- Once a token has been revoked, every check with it is answered by the block for invalid tokens,
  -- from any proxy and after any further operations on the tokens.
  pub handle_check_revoked :
      (before : List TokenRow) (row : TokenRow) (token_id project_id user_id : String) (at : ℕ)
      (proxy : VerifiedProxyContext) (req : CheckRequest)
      → AreUnique before
      → In row before
      → is_token token_id project_id row ≡ true
      → row.token_hash ≡ w.hash_project_token req.project_token
      → Steps w.hash_project_token
          (revoke_project_token token_id project_id user_id at before).0
          w.tokens
      → handle_check w proxy req ≡ ok (invalid_token, [])
  handle_check_revoked before row token_id project_id user_id at proxy req unique i t e steps =
      handle_check_unauthorized proxy req (
        revoke_project_token_final w.hash_project_token w.projects before w.tokens row token_id
          project_id user_id at proxy req.project_token w.now unique i t e steps)

  check_version-evaluated :
      (c : CheckContext) (identity : CanonicalPackageIdentity) (version : String)
      (r : ResolvedRule N) (rs : List (ResolvedRule N)) (d : EvaluatedPolicyDecision N)
      → rules_for w c ≡ r ∷ rs
      → judge w c identity version ≡ ok d
      → check_version w c identity version ≡ ok (evaluated c d)
  unfolding check_version
  check_version-evaluated c identity version r rs d e judged =
      rw (e, check_version, ← e, judged) refl

  optional_version_returns :
      (c : CheckContext) (identity : CanonicalPackageIdentity) (version : Option String)
      → ((v : String) → IsAnswerable c identity v)
      → (x : Checked N) × (check_optional_version w c identity version ≡ ok x)
  unfolding check_version
  optional_version_returns c identity none valid = (metadata_request c, refl)
  optional_version_returns c identity (some version) valid = elim (List-cases (rules_for w c)) [
    | inl e ↦ (no_policy c, rw (e, check_version) refl)
    | inr (r, rs, e) ↦ (
      _,
      check_version-evaluated c identity version r rs _ e (
          answerable-decided (rules_for w c)
            (collect_connector_evaluation_fields w c.token_row.project_id identity version)
            c.default_cache_ttl c.serve_mode (valid version)),
    )
  ]

  identity_returns :
      (c : CheckContext) (identity : CanonicalPackageIdentity)
      → ((v : String) → IsAnswerable c identity v)
      → (x : Checked N) × (check_identity w c identity ≡ ok x)
  identity_returns c identity valid =
      elim (Bool-cases (is_permitted c.entitled_ecosystems identity.ecosystem)) [
        | inr e ↦ (not_permitted c identity.ecosystem, rw e refl)
        | inl e ↦ rw e (optional_version_returns c identity identity.version valid)
      ]

  -- If no condition of the rules in force raises an error on the fields of a version, the message
  -- template of each rule is a text or counts as none, and each code is a text, converts to one or
  -- is missing, then every check is answered.
  pub handle_check_returns :
      (proxy : VerifiedProxyContext) (req : CheckRequest)
      → ((row : TokenRow)
          → In row w.tokens
          → (version : String)
          → IsAnswerable (context_of w.entitlements row) (identity_of w req) version)
      → (x : Checked N) × (handle_check w proxy req ≡ ok x)
  unfolding handle_check load_check_context
  handle_check_returns proxy req valid =
      elim (Option-cases (
        load_authorized_project_token w.hash_project_token w.projects w.tokens proxy
          req.project_token w.now)) [
            | inl n ↦ ((invalid_token, []), rw (n, handle_check, load_check_context) refl)
            | inr (row, l) ↦
                let stored =
                  (load_authorized_project_token_accepted w.hash_project_token w.projects w.tokens
                    proxy req.project_token w.now row l).0 in
                let (x, q) =
                  identity_returns (context_of w.entitlements row) (identity_of w req)
                    (valid row stored) in
                (x, rw (l, handle_check, load_check_context) q)
          ]
