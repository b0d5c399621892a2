-- ===== src/Policy/Versioning.antt =====
-- features/policies/versioning.ts: a change of a policy closes the version that is current and opens
-- the next one. The end of time of the schema, `infinity`, is an argument, as are the ids that the
-- database generates and the clock. Columns that no operation here reads (who created a row, when it
-- was updated, whether a binding is required) are left out, and an insertion returns its row.
pub mod Windows
pub mod Tests
use dep_customs.Prelude.{
  ℕ, suc, String, Bool, ◌&&◌, List, [], ◌∷◌, ◌++◌, map, Option, none, some, or_else, str_eq,
  if◌then◌else◌,
}
use dep_customs.Policy.Tables.{PolicyRow, RuleBindingRow}

-- a row of policies, with the columns that only its versions need
pub record PolicyVersionRow : Type 0 where
  pub policy : PolicyRow
  pub description : Option String
  pub category : Option String
  pub version : ℕ
  pub superseded_by_id : Option String

-- A column that may be null is patched by `some none` to null.
pub record PolicyPatch : Type 0 where
  pub name : Option String
  pub description : Option (Option String)
  pub category : Option (Option String)
  pub status : Option String
  pub enforcement_mode : Option String
  pub priority : Option ℕ

-- a binding of the old version, with the id of its clone
pub record PolicyRuleBindingClone : Type 0 where
  pub id : String
  pub rule_id : String
  pub enabled : Bool
  pub order_index : ℕ

unfoldable pub is_version : (id tenant_id : String) → PolicyVersionRow → Bool
is_version id tenant_id row = str_eq row.policy.id id && str_eq row.policy.tenant_id tenant_id

-- The two updates of the existing version: the window ends before the insertion of the next version,
-- whose id differs, and `superseded_by_id` is set after it.
unfoldable pub close_version :
    (id tenant_id : String) → ℕ → (new_id : String) → PolicyVersionRow → PolicyVersionRow
close_version id tenant_id now new_id row =
    if is_version id tenant_id row
    then record row {
      policy = record (row.policy) { effective_to = now };
      superseded_by_id = some new_id;
    }
    else row

unfoldable pub next_version :
    (infinity now : ℕ) → (new_id : String) → PolicyVersionRow → PolicyPatch → PolicyVersionRow
next_version infinity now new_id existing patch = record {
  policy = record (existing.policy) {
    id = new_id;
    name = or_else patch.name existing.policy.name;
    status = or_else patch.status existing.policy.status;
    enforcement_mode = or_else patch.enforcement_mode existing.policy.enforcement_mode;
    priority = or_else patch.priority existing.policy.priority;
    effective_from = now;
    effective_to = infinity;
  };
  description = or_else patch.description existing.description;
  category = or_else patch.category existing.category;
  version = suc existing.version;
  superseded_by_id = none;
}

unfoldable pub clone_binding : String → PolicyRuleBindingClone → RuleBindingRow
clone_binding policy_id b = record {
  id = b.id;
  policy_id = policy_id;
  rule_id = b.rule_id;
  enabled = b.enabled;
  order_index = b.order_index;
}

pub record PolicyTables : Type 0 where
  pub policies : List PolicyVersionRow
  pub policy_rule_bindings : List RuleBindingRow

unfoldable pub create_next_policy_version :
    (infinity : ℕ)
    → (new_id : String) → PolicyVersionRow
    → (tenant_id : String) → (now : ℕ) → List PolicyRuleBindingClone
    → PolicyPatch
    → PolicyTables
    → PolicyTables × PolicyVersionRow
create_next_policy_version infinity new_id existing tenant_id now bindings patch tables =
    let new_policy = next_version infinity now new_id existing patch in
    (
      record {
        policies =
            map (close_version existing.policy.id tenant_id now new_id) tables.policies
            ++ new_policy ∷ [];
        policy_rule_bindings = tables.policy_rule_bindings ++ map (clone_binding new_id) bindings;
      },
      new_policy,
    )
