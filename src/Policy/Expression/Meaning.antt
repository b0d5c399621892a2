-- ===== src/Policy/Expression/Meaning.antt =====
-- The evaluator of policy/expression.ts against a plain Boolean meaning of conditions, and which
-- fields it reads.
use dep_customs.Prelude.{
  String, ◌≡◌, refl, Bool, true, false, not, ◌&&◌, ◌||◌, List, [], ◌∷◌, arith, In, inl, ◌++◌,
  In-append_left, In-append_right,
}
use dep_customs.Policy.Value.{JsNumber}
use dep_customs.Policy.Expression.{
  Eval, ok, type_error, is_ok, value_or, Condition, Conditions, leaf, all_of, any_of, not_of, other,
  invalid, Fields, get_field, or_null, evaluate_leaf, evaluate, every, some_of, evaluate_condition,
}

ok_value : {A : Type 0} (default : A) (m : Eval A) → is_ok m ≡ true → m ≡ ok (value_or default m)
ok_value default (ok a) h = refl
ok_value default type_error h = cc

module _ {N : Type 0} where
  -- The fields that a condition names.
  abbrev mutual
    pub mentions : Condition N → List String
    mentions (leaf field _ _) = field ∷ []
    mentions (all_of cs) = mentions_each cs
    mentions (any_of cs) = mentions_each cs
    mentions (not_of c) = mentions c
    mentions other = []
    mentions invalid = []

    pub mentions_each : Conditions N → List String
    mentions_each Conditions.nil = []
    mentions_each (Conditions.more c cs) = mentions c ++ mentions_each cs

  -- Two field maps agree on a list of fields.
  abbrev pub AgreeOn : List String → Fields N → Fields N → Type 0
  AgreeOn names f g = (k : String) → In k names → get_field k f ≡ get_field k g

module _ {N : Type 0} ⦃js : JsNumber N⦄ where
  -- The condition holds no `invalid` part and no leaf raises an error on the fields.
  abbrev mutual
    pub IsValid : Fields N → Condition N → Type 0
    IsValid fields (leaf field operator value) =
        is_ok (evaluate_leaf (or_null (get_field field fields)) operator value) ≡ true
    IsValid fields (all_of cs) = AreValid fields cs
    IsValid fields (any_of cs) = AreValid fields cs
    IsValid fields (not_of c) = IsValid fields c
    IsValid fields other = Unit
    IsValid fields invalid = ⊥

    pub AreValid : Fields N → Conditions N → Type 0
    AreValid fields Conditions.nil = Unit
    AreValid fields (Conditions.more c cs) = IsValid fields c × AreValid fields cs

  -- The Boolean meaning: every member is looked at, and nothing fails.
  abbrev mutual
    pub meaning : Fields N → Condition N → Bool
    meaning fields (leaf field operator value) =
        value_or false (evaluate_leaf (or_null (get_field field fields)) operator value)
    meaning fields (all_of cs) = all_hold fields cs
    meaning fields (any_of cs) = any_holds fields cs
    meaning fields (not_of c) = not (meaning fields c)
    meaning fields other = false
    meaning fields invalid = false

    pub all_hold : Fields N → Conditions N → Bool
    all_hold fields Conditions.nil = true
    all_hold fields (Conditions.more c cs) = meaning fields c && all_hold fields cs

    pub any_holds : Fields N → Conditions N → Bool
    any_holds fields Conditions.nil = false
    any_holds fields (Conditions.more c cs) = meaning fields c || any_holds fields cs

  module _ (fields : Fields N) where
    mutual
      unfolding evaluate

      evaluate-meaning :
          (c : Condition N) → IsValid fields c → evaluate fields c ≡ ok (meaning fields c)
      evaluate-meaning (leaf field operator value) v =
          ok_value false (evaluate_leaf (or_null (get_field field fields)) operator value) v
      evaluate-meaning (all_of cs) v = every-all_hold cs v
      evaluate-meaning (any_of cs) v = some_of-any_holds cs v
      evaluate-meaning (not_of c) v = rw (evaluate-meaning c v)
      evaluate-meaning other v = refl
      evaluate-meaning invalid v = absurd v

      every-all_hold :
          (cs : Conditions N) → AreValid fields cs → every fields cs ≡ ok (all_hold fields cs)
      every-all_hold Conditions.nil v = refl
      every-all_hold (Conditions.more c cs) (v, vs) =
          ground (arith, evaluate-meaning c v, every-all_hold cs vs)

      some_of-any_holds :
          (cs : Conditions N) → AreValid fields cs → some_of fields cs ≡ ok (any_holds fields cs)
      some_of-any_holds Conditions.nil v = refl
      some_of-any_holds (Conditions.more c cs) (v, vs) =
          ground (arith, evaluate-meaning c v, some_of-any_holds cs vs)

  -- A condition with no malformed part, and with no leaf that raises an error on the fields, evaluates
  -- with no error, whatever part the evaluator stops at, to its Boolean meaning.
  pub evaluate_condition-meaning :
      (c : Condition N) (fields : Fields N)
      → IsValid fields c
      → evaluate_condition c fields ≡ ok (meaning fields c)
  unfolding evaluate_condition
  evaluate_condition-meaning c fields v = evaluate-meaning fields c v

  module _ (f g : Fields N) where
    mutual
      unfolding evaluate

      evaluate_local : (c : Condition N) → AgreeOn (mentions c) f g → evaluate f c ≡ evaluate g c
      evaluate_local (leaf field op value) h = rw (h field (inl refl))
      evaluate_local (all_of cs) h = (evaluate_each_local cs h).0
      evaluate_local (any_of cs) h = (evaluate_each_local cs h).1
      evaluate_local (not_of c) h = rw (evaluate_local c h)
      evaluate_local other h = refl
      evaluate_local invalid h = refl

      evaluate_each_local :
          (cs : Conditions N)
          → AgreeOn (mentions_each cs) f g
          → (every f cs ≡ every g cs) × (some_of f cs ≡ some_of g cs)
      evaluate_each_local Conditions.nil h = (refl, refl)
      evaluate_each_local (Conditions.more c cs) h =
          let here =
            evaluate_local c (λ k i. h k (In-append_left k (mentions c) (mentions_each cs) i)) in
          let rest =
            evaluate_each_local cs
              (λ k i. h k (In-append_right k (mentions c) (mentions_each cs) i)) in
          (rw (here, rest.0), rw (here, rest.1))

  -- The result, or the error, of an evaluation depends only on the fields that the condition names.
  evaluate_condition_local :
      (c : Condition N) (f g : Fields N)
      → AgreeOn (mentions c) f g
      → evaluate_condition c f ≡ evaluate_condition c g
  unfolding evaluate_condition
  evaluate_condition_local c f g h = evaluate_local f g c h
