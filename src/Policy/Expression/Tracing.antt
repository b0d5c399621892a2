-- ===== src/Policy/Expression/Tracing.antt =====
-- The traced evaluation of policy/expression.ts against the plain one.
use dep_customs.Prelude.{◌≡◌, refl, Bool, false, not, arith}
use dep_customs.Policy.Value.{JsNumber}
use dep_customs.Policy.Expression.{
  Eval, ok, type_error, ◌>>=◌, Condition, Conditions, leaf, all_of, any_of, not_of, other, invalid,
  Fields, get_field, or_null, evaluate_leaf, evaluate, every, some_of, evaluate_condition, Trace,
  Traces, leaf_node, bare_leaf, all_node, any_node, not_node, result_of, all_results, any_result,
  trace, trace_each, evaluate_condition_with_trace,
}

-- A sequence that returns has a first part that returns.
returned :
    {A B : Type 0} (first : Eval A) (next : A → Eval B) (result : B)
    → (first >>= next) ≡ ok result
    → (value : A) × ((first ≡ ok value) × (next value ≡ ok result))
returned type_error next result h = cc
returned (ok value) next result h = (value, (refl, h))

module _ {N : Type 0} ⦃js : JsNumber N⦄ (fields : Fields N) where
  -- A trace explains its result: a leaf shows the resolved value and the operator's answer on it, a
  -- group shows the answer that its children's results give.
  abbrev mutual
    pub Explains : Trace N → Type 0
    Explains (leaf_node r field operator value resolved) =
        (resolved ≡ or_null (get_field field fields))
        × (evaluate_leaf resolved operator value ≡ ok r)
    Explains (bare_leaf r) = r ≡ false
    Explains (all_node r ts) = (r ≡ all_results ts) × ExplainsEach ts
    Explains (any_node r ts) = (r ≡ any_result ts) × ExplainsEach ts
    Explains (not_node r t) = (r ≡ not (result_of t)) × Explains t

    pub ExplainsEach : Traces N → Type 0
    ExplainsEach Traces.nil = Unit
    ExplainsEach (Traces.more t ts) = Explains t × ExplainsEach ts

  -- What one trace says, with its result, of the condition that it was made from.
  abbrev Agrees : Condition N → Bool → Trace N → Type 0
  Agrees c r t = (evaluate fields c ≡ ok r) × (result_of t ≡ r) × Explains t

  abbrev AgreeEach : Conditions N → Traces N → Type 0
  AgreeEach cs ts =
      (every fields cs ≡ ok (all_results ts))
      × (some_of fields cs ≡ ok (any_result ts))
      × ExplainsEach ts

  mutual
    unfolding evaluate trace

    trace-Agrees :
        (c : Condition N) (r : Bool) (t : Trace N) → trace fields c ≡ ok (r, t) → Agrees c r t
    trace-Agrees (leaf field operator value) r t h =
        let resolved = or_null (get_field field fields) in
        let (x, (e, k)) = returned (evaluate_leaf resolved operator value) _ _ h in
        ground (arith, e, k)
    trace-Agrees (all_of cs) r t h =
        let (ts, (e, k)) = returned (trace_each fields cs) _ _ h in
        let (x, y, z) = trace_each-Agree cs ts e in ground arith
    trace-Agrees (any_of cs) r t h =
        let (ts, (e, k)) = returned (trace_each fields cs) _ _ h in
        let (x, y, z) = trace_each-Agree cs ts e in ground arith
    trace-Agrees (not_of c) r t h =
        let ((r', t'), (e, k)) = returned (trace fields c) _ _ h in
        let (x, y, z) = trace-Agrees c r' t' e in ground arith
    trace-Agrees other r t h = ground arith
    trace-Agrees invalid r t h = cc

    trace_each-Agree :
        (cs : Conditions N) (ts : Traces N) → trace_each fields cs ≡ ok ts → AgreeEach cs ts
    trace_each-Agree Conditions.nil ts h = ground arith
    trace_each-Agree (Conditions.more c cs) ts h =
        let ((r, t), (e, k)) = returned (trace fields c) _ _ h in
        let (rest, (e', k')) = returned (trace_each fields cs) _ _ k in
        let (x, y, z) = trace-Agrees c r t e in
        let (x', y', z') = trace_each-Agree cs rest e' in ground arith

module _ {N : Type 0} ⦃js : JsNumber N⦄ where
  -- Whenever the traced evaluation returns, the plain evaluation returns the same result, which is
  -- the result at the root of the trace, and the trace explains it at every node.
  pub evaluate_condition-with_trace :
      (c : Condition N) (fields : Fields N) (r : Bool) (t : Trace N)
      → evaluate_condition_with_trace c fields ≡ ok (r, t)
      → (evaluate_condition c fields ≡ ok r) × (result_of t ≡ r) × Explains fields t
  unfolding evaluate_condition evaluate_condition_with_trace
  evaluate_condition-with_trace c fields r t h = trace-Agrees fields c r t h
