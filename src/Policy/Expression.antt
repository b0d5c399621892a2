-- ===== src/Policy/Expression.antt =====
-- policy/expression.ts: condition trees and their evaluation against a field map. A `TypeError`
-- that the evaluator raises is the value `type_error`.
pub mod Template
pub mod Tracing
pub mod Meaning
pub mod Tests
use dep_customs.Prelude.{
  String, Bool, true, false, not, ◌&&◌, List, [], ◌∷◌, str_eq, includes, starts_with, ends_with,
  if◌then◌else◌,
}
use dep_customs.Policy.Value.{
  JsNumber, Value, undefined, null, bool, str, arr, to_text, loosely_eq, less, less_or_eq,
  includes_value, is_present, is_convertible, eq_converts, order_converts,
}

-- What a computation that may raise a `TypeError` returns.
pub data Eval {ℓ} (A : Type ℓ) : Type ℓ where
  ok : A → Eval A
  type_error : Eval A

infixl 5 ◌>>=◌
abbrev pub ◌>>=◌ {ℓ κ} : {A : Type ℓ} {B : Type κ} → Eval A → (A → Eval B) → Eval B
ok a >>= f = f a
type_error >>= f = type_error

-- What a computation answers, if it does.
abbrev pub is_ok {ℓ} : {A : Type ℓ} → Eval A → Bool
is_ok (ok a) = true
is_ok type_error = false

abbrev pub value_or {ℓ} : {A : Type ℓ} → A → Eval A → A
value_or default (ok a) = a
value_or default type_error = default

-- An answer that is made with a conversion, which raises an error or does not.
abbrev pub converted {ℓ} : {A : Type ℓ} → (converts : Bool) → A → Eval A
converted converts a = if converts then ok a else type_error

-- `other` is an object or an array with none of the keys; `invalid` is null or another primitive,
-- of which the first type guard's `in` raises a `TypeError`, or a leaf whose field cannot be made a
-- key.
mutual
  pub data Condition (N : Type 0) : Type 0 where
    leaf : (field operator : String) (value : Value N) → Condition N
    all_of any_of : Conditions N → Condition N
    not_of : Condition N → Condition N
    other invalid : Condition N

  pub data Conditions (N : Type 0) : Type 0 where
    nil : Conditions N
    more : Condition N → Conditions N → Conditions N

-- The field map, newest entry first.
abbrev pub Fields : Type 0 → Type 0
Fields N = List (String × Value N)

module _ {N : Type 0} where
  -- `fields[key]`
  unfoldable pub get_field : String → Fields N → Value N
  get_field key [] = undefined
  get_field key ((k, v) ∷ fields) = if str_eq k key then v else get_field key fields

  -- `v ?? null`
  abbrev pub or_null : Value N → Value N
  or_null undefined = null
  or_null v = v

  -- `Array.isArray(v)`, `typeof v === "string"`, `v === true`, `v === false`, with a test of the part
  abbrev pub is_true : Value N → Bool
  is_true (bool true) = true
  is_true v = false

  abbrev pub is_false : Value N → Bool
  is_false (bool false) = true
  is_false v = false

module _ {N : Type 0} ⦃js : JsNumber N⦄ where
  abbrev pub member_of : Value N → Value N → Bool
  member_of v (arr items) = includes_value items v
  member_of v c = false

  abbrev pub not_member_of : Value N → Value N → Bool
  not_member_of v (arr items) = not (includes_value items v)
  not_member_of v c = false

  -- `typeof v === "string" && …`, where the test converts c to a text
  abbrev pub is_text_and : (String → String → Bool) → Value N → Value N → Eval Bool
  is_text_and p (str s) c = converted (is_convertible c) (p s (to_text c))
  is_text_and p v c = ok false

  -- the operators that want a present field value
  unfoldable pub compare_present : Value N → String → Value N → Eval Bool
  compare_present v operator c =
      if str_eq operator "eq"
      then converted (eq_converts v c) (loosely_eq v c)
      else if str_eq operator "ne"
      then converted (eq_converts v c) (not (loosely_eq v c))
      else if str_eq operator "gt"
      then converted (order_converts c v) (less c v)
      else if str_eq operator "gte"
      then converted (order_converts c v) (less_or_eq c v)
      else if str_eq operator "lt"
      then converted (order_converts v c) (less v c)
      else if str_eq operator "lte"
      then converted (order_converts v c) (less_or_eq v c)
      else if str_eq operator "in"
      then ok (member_of v c)
      else if str_eq operator "not_in"
      then ok (not_member_of v c)
      else if str_eq operator "contains"
      then is_text_and includes v c
      else if str_eq operator "not_contains"
      then is_text_and (λ s t. not (includes s t)) v c
      else if str_eq operator "starts_with"
      then is_text_and starts_with v c
      else if str_eq operator "ends_with"
      then is_text_and ends_with v c
      else ok false

  unfoldable pub evaluate_leaf : Value N → String → Value N → Eval Bool
  evaluate_leaf v operator c =
      if str_eq operator "exists"
      then ok (is_present v)
      else if str_eq operator "not_exists"
      then ok (not (is_present v))
      else if str_eq operator "is_true"
      then ok (is_true v)
      else if str_eq operator "is_false"
      then ok (is_false v)
      else if is_present v
      then compare_present v operator c
      else ok false

  -- `every` and `some` stop at the first member that decides
  unfoldable mutual
    pub evaluate : Fields N → Condition N → Eval Bool
    evaluate fields (all_of cs) = every fields cs
    evaluate fields (any_of cs) = some_of fields cs
    evaluate fields (not_of c) = evaluate fields c >>= λ b. ok (not b)
    evaluate fields (leaf field operator value) =
        evaluate_leaf (or_null (get_field field fields)) operator value
    evaluate fields other = ok false
    evaluate fields invalid = type_error

    pub every : Fields N → Conditions N → Eval Bool
    every fields nil = ok true
    every fields (more c cs) =
        evaluate fields c >>= λ b. let rest = every fields cs in if b then rest else ok false

    pub some_of : Fields N → Conditions N → Eval Bool
    some_of fields nil = ok false
    some_of fields (more c cs) =
        evaluate fields c >>= λ b. let rest = some_of fields cs in if b then ok true else rest

  unfoldable pub evaluate_condition : Condition N → Fields N → Eval Bool
  unfolding evaluate
  evaluate_condition c fields = evaluate fields c

-- The trace of an evaluation.
mutual
  pub data Trace (N : Type 0) : Type 0 where
    leaf_node : (result : Bool) (field operator : String) (value resolved : Value N) → Trace N
    bare_leaf : (result : Bool) → Trace N
    all_node any_node : (result : Bool) → Traces N → Trace N
    not_node : (result : Bool) → Trace N → Trace N

  pub data Traces (N : Type 0) : Type 0 where
    nil : Traces N
    more : Trace N → Traces N → Traces N

module _ {N : Type 0} where
  abbrev pub result_of : Trace N → Bool
  result_of (leaf_node r _ _ _ _) = r
  result_of (bare_leaf r) = r
  result_of (all_node r _) = r
  result_of (any_node r _) = r
  result_of (not_node r _) = r

  abbrev pub all_results : Traces N → Bool
  all_results nil = true
  all_results (more t ts) = result_of t && all_results ts

  abbrev pub any_result : Traces N → Bool
  any_result nil = false
  any_result (more t ts) = if result_of t then true else any_result ts

module _ {N : Type 0} ⦃js : JsNumber N⦄ where
  unfoldable mutual
    pub trace : Fields N → Condition N → Eval (Bool × Trace N)
    trace fields (all_of cs) = trace_each fields cs >>= λ ts.
        let result = all_results ts in ok (result, all_node result ts)
    trace fields (any_of cs) =
        trace_each fields cs >>= λ ts. let result = any_result ts in ok (result, any_node result ts)
    trace fields (not_of c) = trace fields c >>= λ inner.
        let result = not (inner.0) in ok (result, not_node result (inner.1))
    trace fields (leaf field operator value) =
        let resolved = or_null (get_field field fields) in
        evaluate_leaf resolved operator value >>= λ result.
        ok (result, leaf_node result field operator value resolved)
    trace fields other = ok (false, bare_leaf false)
    trace fields invalid = type_error

    pub trace_each : Fields N → Conditions N → Eval (Traces N)
    trace_each fields nil = ok nil
    trace_each fields (more c cs) =
        trace fields c >>= λ first. trace_each fields cs >>= λ rest. ok (more (first.1) rest)

  unfoldable pub evaluate_condition_with_trace : Condition N → Fields N → Eval (Bool × Trace N)
  unfolding trace
  evaluate_condition_with_trace c fields = trace fields c
