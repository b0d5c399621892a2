-- ===== src/Policy/Rules.antt =====
-- The rules that the policy engine evaluates: the types of policy/effective.ts, and a stored or
-- overriding JSON value read as a condition, in the order of the type guards of
-- policy/expression.ts.
use dep_customs.Prelude.{
  ℕ, String, Bool, true, false, List, [], ◌∷◌, Option, none, some, str_eq, if◌then◌else◌,
}
use dep_customs.Policy.Value.{
  JsNumber, Value, Items, Members, undefined, str, arr, obj, to_text, is_convertible,
}
use dep_customs.Policy.Expression.{
  Condition, Conditions, leaf, all_of, any_of, not_of, other, invalid,
}

-- Stored JSON, which an override merges any value into; a missing field is undefined.
pub record RuleAction (N : Type 0) : Type 0 where
  pub type : Value N
  pub severity : Value N
  pub code : Value N
  pub message_template : Value N
  pub recommended_remediation : Value N
  pub enforcement_mode : Value N

pub record ResolvedRule (N : Type 0) : Type 0 where
  pub id : String
  pub rule_key : String
  pub policy_id : String
  pub policy_rule_binding_id : String
  pub policy_project_binding_id : Option String
  pub policy_name : String
  pub name : String
  pub description : Option String
  pub target_entity : String
  pub condition : Condition N
  pub action : RuleAction N
  pub effective_enforcement_mode : Value N
  pub order_index : ℕ
  pub policy_priority : ℕ

module _ {N : Type 0} where
  -- `v?.[key]`, which is undefined of anything but an object
  abbrev pub lookup_member : String → Members N → Value N
  lookup_member key Members.none = undefined
  lookup_member key (Members.member k v ms) = if str_eq k key then v else lookup_member key ms

  abbrev pub member_at : String → Value N → Value N
  member_at key (obj ms) = lookup_member key ms
  member_at key v = undefined

  -- `key in v`
  abbrev pub has_member : String → Members N → Bool
  has_member key Members.none = false
  has_member key (Members.member k v ms) = if str_eq k key then true else has_member key ms

-- A member of a candidate condition: whether it is an array, its value, and both ways to read it.
pub record Part (N : Type 0) : Type 0 where
  pub is_array : Bool
  pub value : Value N
  pub condition : Condition N
  pub conditions : Conditions N

module _ {N : Type 0} where
  abbrev find_part : String → List (String × Part N) → Option (Part N)
  find_part key [] = none
  find_part key ((k, p) ∷ ps) = if str_eq k key then some p else find_part key ps

  -- the part that is an array
  abbrev array_part : Option (Part N) → Option (Conditions N)
  array_part none = none
  array_part (some p) = if p.is_array then some p.conditions else none

  -- a value that is no text is no operator of the switch
  abbrev operator_text : Value N → String
  operator_text (str s) = s
  operator_text v = ""

  abbrev is_array_value : Value N → Bool
  is_array_value (arr _) = true
  is_array_value v = false

  abbrev value_or_undefined : Option (Part N) → Value N
  value_or_undefined none = undefined
  value_or_undefined (some p) = p.value

module _ {N : Type 0} ⦃js : JsNumber N⦄ where
  -- the guards `isAll`, `isAny`, `isNot` and `isLeaf`, in the evaluator's order
  abbrev leaf_part : Option (Part N) → Option (Part N) → Option (Part N) → Condition N
  leaf_part (some field) (some operator) value =
      if is_convertible field.value
      then leaf (to_text field.value) (operator_text operator.value) (value_or_undefined value)
      else invalid
  leaf_part _ _ _ = other

  abbrev not_part : Option (Part N) → Condition N → Condition N
  not_part none c = c
  not_part (some p) c = not_of p.condition

  abbrev group_part :
      Option (Conditions N) → (Conditions N → Condition N) → Condition N → Condition N
  group_part none group c = c
  group_part (some cs) group c = group cs

  unfoldable pub classify : List (String × Part N) → Condition N
  classify parts = group_part (array_part (find_part "all" parts)) all_of (
      group_part (array_part (find_part "any" parts)) any_of (
        not_part (find_part "not" parts) (
          leaf_part (find_part "field" parts) (find_part "operator" parts)
            (find_part "value" parts))))

  -- `v as Condition`, as the evaluator goes on to read it
  unfoldable mutual
    unfolding classify

    pub as_condition : Value N → Condition N
    as_condition (obj ms) = classify (parts_of ms)
    as_condition (arr _) = other
    as_condition _ = invalid

    pub as_conditions : Value N → Conditions N
    as_conditions (arr items) = conditions_of items
    as_conditions _ = Conditions.nil

    pub conditions_of : Items N → Conditions N
    conditions_of Items.nil = Conditions.nil
    conditions_of (Items.item v items) = Conditions.more (as_condition v) (conditions_of items)

    pub parts_of : Members N → List (String × Part N)
    parts_of Members.none = []
    parts_of (Members.member k v ms) =
        (
          k,
          record {
            is_array = is_array_value v;
            value = v;
            condition = as_condition v;
            conditions = as_conditions v;
          },
        )
        ∷ parts_of ms
