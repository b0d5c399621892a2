-- ===== src/Policy/Versioning/Tests.antt =====
-- The second version of a policy is replaced by a third one.
use dep_customs.Prelude.{
  ◌≢◌, ◌⊎◌, refl, sym, ap, subst, ◌∙◌, List, [], ◌∷◌, ℕ, String, none, some, true, In, inl, inr,
  arith, eq_iff,
}
use dep_customs.Policy.Versioning.{
  PolicyVersionRow, PolicyPatch, PolicyRuleBindingClone, PolicyTables, create_next_policy_version,
  close_version,
}
use dep_customs.Policy.Versioning.Windows.{
  IsCurrentAt, AreVersions, create_next_policy_version-AreVersions,
}

abbrev version_row : String → ℕ → ℕ → ℕ → PolicyVersionRow
version_row id version from to = record {
  policy = record {
    id = id;
    tenant_id = "t1";
    project_id = none;
    policy_key = "k1";
    name = "Baseline";
    scope = "global";
    status = "active";
    enforcement_mode = "advisory";
    priority = 10;
    effective_from = from;
    effective_to = to;
  };
  description = some "The rules of all projects";
  category = none;
  version = version;
  superseded_by_id = none;
}

abbrev first : PolicyVersionRow
first = version_row "p1" 1 0 3

abbrev second : PolicyVersionRow
second = version_row "p2" 2 3 100

abbrev tables : PolicyTables
tables = record { policies = first ∷ second ∷ []; policy_rule_bindings = [] }

-- the next version enforces the policy and drops its description
abbrev patch : PolicyPatch
patch = record {
  name = none;
  description = some none;
  category = none;
  status = none;
  enforcement_mode = some "enforcing";
  priority = none;
}

abbrev bindings : List PolicyRuleBindingClone
bindings = record { id = "b3"; rule_id = "r1"; enabled = true; order_index = 0 } ∷ []

p1-p2 : ◌≢◌ {A = String} "p1" "p2"
p1-p2 e = ground (arith, eq_iff "p1" "p2", e)

p1-p3 : ◌≢◌ {A = String} "p1" "p3"
p1-p3 e = ground (arith, eq_iff "p1" "p3", e)

p2-p3 : ◌≢◌ {A = String} "p2" "p3"
p2-p3 e = ground (arith, eq_iff "p2" "p3", e)

apart : (t : ℕ) → IsCurrentAt t first → IsCurrentAt t second → ⊥
apart t c d = omega (arith, c.1, d.0)

stored-AreVersions : AreVersions tables.policies
stored-AreVersions = record {
  ids = λ r s i j e. elim i [
    | inl p ↦ elim j [
      | inl q ↦ p ∙ sym q
      | inr (inl q) ↦ absurd (p1-p2 (ap (λ x. x.policy.id) (sym p) ∙ e ∙ ap (λ x. x.policy.id) q))
      | inr (inr q) ↦ absurd q
    ]
    | inr (inl p) ↦ elim j [
      | inl q ↦ absurd (p1-p2 (sym (ap (λ x. x.policy.id) (sym p) ∙ e ∙ ap (λ x. x.policy.id) q)))
      | inr (inl q) ↦ p ∙ sym q
      | inr (inr q) ↦ absurd q
    ]
    | inr (inr p) ↦ absurd p
  ];
  windows = λ t r s i j key c d. elim i [
    | inl p ↦ elim j [
      | inl q ↦ p ∙ sym q
      | inr (inl q) ↦ absurd (apart t (subst (IsCurrentAt t) p c) (subst (IsCurrentAt t) q d))
      | inr (inr q) ↦ absurd q
    ]
    | inr (inl p) ↦ elim j [
      | inl q ↦ absurd (apart t (subst (IsCurrentAt t) q d) (subst (IsCurrentAt t) p c))
      | inr (inl q) ↦ p ∙ sym q
      | inr (inr q) ↦ absurd q
    ]
    | inr (inr p) ↦ absurd p
  ];
}

new_id-fresh : (r : PolicyVersionRow) → In r tables.policies → r.policy.id ≢ "p3"
new_id-fresh r i e = elim i [
  | inl p ↦ p1-p3 (ap (λ x. x.policy.id) (sym p) ∙ e)
  | inr (inl p) ↦ p2-p3 (ap (λ x. x.policy.id) (sym p) ∙ e)
  | inr (inr p) ↦ absurd p
]

create_next_policy_version-AreVersions_example :
    AreVersions
      (create_next_policy_version 100 "p3" second "t1" 10 bindings patch tables).0.policies
    × (IsCurrentAt 12 (close_version "p2" "t1" 10 "p3" second)
        ⊎ IsCurrentAt 12
            (create_next_policy_version 100 "p3" second "t1" 10 bindings patch tables).1)
create_next_policy_version-AreVersions_example =
    create_next_policy_version-AreVersions 100 10 "p3" "t1" second bindings patch tables 12
      stored-AreVersions (inr (inl refl)) refl refl (omega arith) (omega arith) new_id-fresh
      (omega arith, omega arith)
