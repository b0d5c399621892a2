-- ===== src/Policy/Tables.antt =====
-- The rows and results of policy/effective.ts: the columns of the four tables that it reads, and the
-- snapshot that it returns. Times are milliseconds.
use dep_customs.Prelude.{ℕ, String, Bool, List, Option}
use dep_customs.Policy.Value.{Value}
use dep_customs.Policy.Rules.{RuleAction, ResolvedRule}

pub record PolicyRow : Type 0 where
  pub id : String
  pub tenant_id : String
  pub project_id : Option String
  pub policy_key : String
  pub name : String
  pub scope : String
  pub status : String
  pub enforcement_mode : String
  pub priority : ℕ
  pub effective_from : ℕ
  pub effective_to : ℕ

-- a row of policy_project_bindings
pub record BindingRow (N : Type 0) : Type 0 where
  pub id : String
  pub tenant_id : String
  pub project_id : String
  pub policy_key : String
  pub enabled : Bool
  pub inheritance_mode : String
  pub enforcement_mode_override : Option String
  pub severity_override : Option String
  pub threshold_overrides : Value N
  pub rule_overrides : Value N
  pub effective_from : ℕ
  pub effective_to : ℕ

-- a row of policy_rule_bindings
pub record RuleBindingRow : Type 0 where
  pub id : String
  pub policy_id : String
  pub rule_id : String
  pub enabled : Bool
  pub order_index : ℕ

pub record RuleRow (N : Type 0) : Type 0 where
  pub id : String
  pub rule_key : String
  pub name : String
  pub description : Option String
  pub target_entity : String
  pub condition : Value N
  pub action : RuleAction N
  pub effective_from : ℕ
  pub effective_to : ℕ

pub record Database (N : Type 0) : Type 0 where
  pub policies : List PolicyRow
  pub policy_project_bindings : List (BindingRow N)
  pub policy_rule_bindings : List RuleBindingRow
  pub rules : List (RuleRow N)

-- a policy that applies to the project, with its binding
pub data Source : Type 0 where
  global project assigned : Source

pub record EffectivePolicy (N : Type 0) : Type 0 where
  pub policy : PolicyRow
  pub source : Source
  pub binding : Option (BindingRow N)

pub record BoundRule (N : Type 0) : Type 0 where
  pub binding_id : String
  pub policy_id : String
  pub enabled : Bool
  pub order_index : ℕ
  pub rule : RuleRow N

-- the policies of a snapshot
pub record ResolvedPolicy (N : Type 0) : Type 0 where
  pub id : String
  pub policy_key : String
  pub name : String
  pub scope : String
  pub enforcement_mode : String
  pub priority : ℕ
  pub source : Source
  pub policy_project_binding_id : Option String
  pub override_state : Option (BindingRow N)
  pub rules : List (ResolvedRule N)

pub record PolicySnapshot (N : Type 0) : Type 0 where
  pub resolved_at : ℕ
  pub tenant_id : String
  pub project_id : String
  pub policies : List (ResolvedPolicy N)
  pub all_rules : List (ResolvedRule N)
