-- ===== src/Check/Tests.antt =====
-- One tenant with one project, one token and one global policy, whose rule blocks young packages.
use dep_customs.Prelude.{
  ℕ, String, ◌≡◌, ◌⊎◌, refl, true, false, List, [], ◌∷◌, Option, some, none, In, inl, inr, All,
}
use dep_customs.Policy.Value.{Value, Members, undefined, obj, str, num}
use dep_customs.Policy.Value.Sample.{Sample, natural, sample_number}
use dep_customs.Policy.Expression.{ok}
use dep_customs.Policy.Resolver.{ConnectorSnapshot, unavailable_snapshot}
use dep_customs.Policy.Rules.{ResolvedRule, as_condition}
use dep_customs.Policy.Decision.{block}
use dep_customs.Policy.Effective.{load_effective_policy}
use dep_customs.Policy.Decision.Laws.{Blocks}
use dep_customs.Tokens.{
  TokenRow, VerifiedProxyContext, revoke_project_token, load_authorized_project_token,
}
use dep_customs.Tokens.Lifecycle.{done}
use dep_customs.Tokens.Authorized.{AreUnique}
use dep_customs.Check.{
  CheckRequest, World, Checked, invalid_token, metadata_request,
  collect_connector_evaluation_fields, context_of, complete_snapshots, handle_check,
}
use dep_customs.Policy.Expression.Meaning.{IsValid}
use dep_customs.Check.Gate.{
  identity_of, rules_for, IsCleared, handle_check-IsCleared, handle_check-Blocks,
}
use dep_customs.Check.Answers.{IsAnswerable, handle_check_revoked, handle_check_returns}

abbrev token : TokenRow
token = record {
  id = "k1";
  project_id = "p1";
  tenant_id = "t1";
  name = "ci";
  owner_user_id = "u1";
  created_by_user_id = "u1";
  token_hash = "secret";
  token_prefix = "secret";
  created_at = 0;
  expires_at = none;
  revoked_at = none;
  revoked_by_user_id = none;
}

abbrev young : Value Sample
young = obj (
    Members.member "field" (str "asset.version_age_days") (
      Members.member "operator" (str "lt") (Members.member "value" (num (natural 7)) Members.none)))

abbrev world : List TokenRow → World Sample
world tokens = record {
  hash_project_token = λ t. t;
  to_lower_case = λ t. t;
  tokens = tokens;
  projects = record { id = "p1"; tenant_id = "t1"; name = "website"; is_current = true } ∷ [];
  entitlements = [];
  policies = record {
    policies =
        record {
          id = "q1";
          tenant_id = "t1";
          project_id = none;
          policy_key = "baseline";
          name = "Baseline";
          scope = "global";
          status = "active";
          enforcement_mode = "enforcing";
          priority = 0;
          effective_from = 0;
          effective_to = 100;
        }
        ∷ [];
    policy_project_bindings = [];
    policy_rule_bindings =
        record { id = "b1"; policy_id = "q1"; rule_id = "r1"; enabled = true; order_index = 0 }
        ∷ [];
    rules =
        record {
          id = "r1";
          rule_key = "young";
          name = "Young package";
          description = none;
          target_entity = "version";
          condition = young;
          action = record {
            type = undefined;
            severity = undefined;
            code = undefined;
            message_template = undefined;
            recommended_remediation = undefined;
            enforcement_mode = undefined;
          };
          effective_from = 0;
          effective_to = 100;
        }
        ∷ [];
  };
  supported_connectors = λ identity. [];
  stored_snapshots = λ project_id identity. [];
  release = λ identity. record {
    version_published_at = none;
    version_age_days = some (natural 2);
    latest_version_published_at = none;
  };
  now = 5;
  now_text = "now";
}

abbrev proxy : VerifiedProxyContext
proxy = record { proxy_id = "x1"; tenant_id = "t1"; tenant_scope = none }

abbrev request : String → CheckRequest
request version = record {
  project_token = "secret";
  ecosystem = "npm";
  pkg = "lodash";
  version = version;
}

abbrev answer : Checked Sample
answer = metadata_request (context_of [] token)

handle_check-IsCleared_example : IsCleared (world (token ∷ [])) proxy (request "")
unfolding handle_check dep_customs.Tokens.load_authorized_project_token dep_customs.Tokens.has_hash
    dep_customs.Tokens.proxy_allows_tenant dep_customs.Packages.canonicalize_package_identity
    dep_customs.Packages.canonicalize_optional_package_version
    dep_customs.Packages.canonicalize_package_version
handle_check-IsCleared_example =
    handle_check-IsCleared (world (token ∷ [])) proxy (request "") (answer.0) (answer.1) refl refl

abbrev revoked : List TokenRow
revoked = (revoke_project_token "k1" "p1" "u1" 3 (token ∷ [])).0

unique : AreUnique (token ∷ [])
unique r s (inl p) (inl q) e = cc (p, q)
unique r s (inl p) (inr j) e = absurd j
unique r s (inr i) j e = absurd i

handle_check_revoked_example :
    handle_check (world revoked) proxy (request "1.0") ≡ ok (invalid_token, [])
unfolding dep_customs.Tokens.is_token
handle_check_revoked_example =
    handle_check_revoked (world revoked) (token ∷ []) token "k1" "p1" "u1" 3 proxy (request "1.0")
      unique (inl refl) refl refl (done revoked)

-- the rule in force
abbrev rule : ResolvedRule Sample
rule = record {
  id = "r1";
  rule_key = "young";
  policy_id = "q1";
  policy_rule_binding_id = "b1";
  policy_project_binding_id = none;
  policy_name = "Baseline";
  name = "Young package";
  description = none;
  target_entity = "version";
  condition = as_condition young;
  action = record {
    type = undefined;
    severity = undefined;
    code = undefined;
    message_template = undefined;
    recommended_remediation = undefined;
    enforcement_mode = undefined;
  };
  effective_enforcement_mode = str "enforcing";
  order_index = 0;
  policy_priority = 0;
}

-- the only rule, whatever the row, as the only row has it
abbrev SoundRows : Type 0
SoundRows =
    (row : TokenRow)
    → In row (token ∷ [])
    → (version : String)
    → IsAnswerable (world (token ∷ [])) (context_of [] row)
        (identity_of (world (token ∷ [])) (request "1.0")) version

sound : SoundRows
unfolding dep_customs.Policy.Effective.load_effective_policy dep_customs.Prelude.sort
    dep_customs.Policy.Effective.effective_policies dep_customs.Policy.Effective.is_global_policy
    dep_customs.Policy.Effective.binding_for dep_customs.Policy.Effective.is_project_policy
    dep_customs.Policy.Effective.resolve_policy dep_customs.Policy.Effective.binding_rule_rows
    dep_customs.Policy.Overrides.resolved_with as_condition
    dep_customs.Policy.Overrides.overridden_action dep_customs.Policy.Overrides.overridden_condition
    dep_customs.Policy.Effective.inherit dep_customs.Policy.Overrides.get_rule_override
    dep_customs.Policy.Overrides.is_switched_off dep_customs.Policy.Overrides.has_mode
    dep_customs.Policy.Effective.join_rules dep_customs.Policy.Effective.rules_of
    dep_customs.Policy.Expression.evaluate_leaf dep_customs.Policy.Value.is_convertible
    dep_customs.Policy.Expression.get_field collect_connector_evaluation_fields
    dep_customs.Policy.Resolver.resolve_fields complete_snapshots dep_customs.Policy.Value.to_text
    dep_customs.Policy.Expression.compare_present dep_customs.Policy.Value.is_truthy
sound row (inl e) version =
    rw e (record { valid = refl; has_message_text = refl; has_code_text = refl }, tt)
sound row (inr i) version = absurd i

valid :
    All
      (λ r.
        IsValid
          (collect_connector_evaluation_fields
            (world (token ∷ []))
            "p1"
            (identity_of (world (token ∷ [])) (request "1.0"))
            "1.0")
          r.condition)
      (rules_for (world (token ∷ [])) (context_of [] token))
unfolding dep_customs.Policy.Effective.load_effective_policy dep_customs.Prelude.sort
    dep_customs.Policy.Effective.effective_policies dep_customs.Policy.Effective.is_global_policy
    dep_customs.Policy.Effective.binding_for dep_customs.Policy.Effective.is_project_policy
    dep_customs.Policy.Effective.resolve_policy dep_customs.Policy.Effective.binding_rule_rows
    dep_customs.Policy.Overrides.resolved_with as_condition
    dep_customs.Policy.Overrides.overridden_condition dep_customs.Policy.Effective.inherit
    dep_customs.Policy.Overrides.get_rule_override dep_customs.Policy.Overrides.is_switched_off
    dep_customs.Policy.Overrides.has_mode dep_customs.Policy.Effective.join_rules
    dep_customs.Policy.Effective.rules_of dep_customs.Policy.Expression.evaluate_leaf
    dep_customs.Policy.Value.is_convertible dep_customs.Policy.Expression.get_field
    collect_connector_evaluation_fields dep_customs.Policy.Resolver.resolve_fields
    complete_snapshots dep_customs.Policy.Value.to_text
    dep_customs.Policy.Expression.compare_present
valid = (refl, tt)

handle_check_returns_example :
    (x : Checked Sample) × (handle_check (world (token ∷ [])) proxy (request "1.0") ≡ ok x)
handle_check_returns_example = handle_check_returns (world (token ∷ [])) proxy (request "1.0") sound

-- the answer to the check of a version
abbrev checked : Checked Sample
checked = (handle_check_returns (world (token ∷ [])) proxy (request "1.0") sound).0

accepted :
    load_authorized_project_token
      (λ t. t)
      (world (token ∷ [])).projects
      (token ∷ [])
      proxy
      "secret"
      5
    ≡ some token
unfolding load_authorized_project_token dep_customs.Tokens.has_hash
    dep_customs.Tokens.proxy_allows_tenant
accepted = refl

given : (identity_of (world (token ∷ [])) (request "1.0")).version ≡ some "1.0"
unfolding dep_customs.Packages.canonicalize_package_identity
    dep_customs.Packages.canonicalize_optional_package_version
    dep_customs.Packages.canonicalize_package_version
given = refl

rule-In : In rule (rules_for (world (token ∷ [])) (context_of [] token))
unfolding load_effective_policy dep_customs.Prelude.sort
    dep_customs.Policy.Effective.effective_policies dep_customs.Policy.Effective.is_global_policy
    dep_customs.Policy.Effective.binding_for dep_customs.Policy.Effective.is_project_policy
    dep_customs.Policy.Effective.resolve_policy dep_customs.Policy.Effective.binding_rule_rows
    dep_customs.Policy.Overrides.resolved_with dep_customs.Policy.Overrides.resolve_enforcement_mode
    dep_customs.Policy.Effective.inherit dep_customs.Policy.Overrides.get_rule_override
    dep_customs.Policy.Overrides.is_switched_off dep_customs.Policy.Overrides.overridden_action
    dep_customs.Policy.Overrides.overridden_condition dep_customs.Policy.Overrides.has_mode
    dep_customs.Policy.Effective.join_rules dep_customs.Policy.Effective.rules_of as_condition
    dep_customs.Policy.Overrides.resolve_mode
rule-In = inl refl

rule-Blocks :
    Blocks
      (collect_connector_evaluation_fields
        (world (token ∷ []))
        "p1"
        (identity_of (world (token ∷ [])) (request "1.0"))
        "1.0")
      rule
unfolding as_condition dep_customs.Policy.Expression.evaluate_leaf
    dep_customs.Policy.Expression.get_field collect_connector_evaluation_fields
    dep_customs.Policy.Resolver.resolve_fields complete_snapshots dep_customs.Policy.Value.to_text
    dep_customs.Policy.Expression.compare_present dep_customs.Policy.Value.less
    dep_customs.Policy.Value.is_convertible
rule-Blocks = record { matches = refl; is_violation = refl; is_enforcing = refl }

handle_check-Blocks_example : checked.0.decision ≡ block
handle_check-Blocks_example =
    handle_check-Blocks (world (token ∷ [])) proxy (request "1.0") token "1.0" rule (checked.0)
      (checked.1) accepted given valid rule-In rule-Blocks
      ((handle_check_returns (world (token ∷ [])) proxy (request "1.0") sound).1)
