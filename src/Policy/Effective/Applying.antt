-- ===== src/Policy/Effective/Applying.antt =====
-- Which policies apply to a project: the predicates, and that `effective_policies` returns no others.
use dep_customs.Prelude.{
  ℕ, ◌≤◌, ◌<◌, String, ◌≡◌, ◌⊎◌, refl, sym, ap, ◌∙◌, subst, Bool, true, false, ◌&&◌, List, [], ◌∷◌,
  Option, none, some, inl, inr, arith, str_eq, eq_iff, if◌then◌else◌, filter, In, In-filter,
  In-flat_map, In-map, In-append, In-sort, Bool-cases, Option-cases,
}
use dep_customs.Policy.Tables.{PolicyRow, BindingRow, Database, EffectivePolicy}
use dep_customs.Policy.Effective.{
  is_text, is_null, in_force, is_project_policy, is_global_policy, is_current_binding, binding_for,
  is_opted_out, inherit, own, policy_before, effective_policies,
}

-- The row is in force at a time.
abbrev pub InForce : (at from to : ℕ) → Type 0
InForce at from to = (from ≤ at) × (at < to)

-- An active policy of the tenant that is in force.
pub record IsActive (tenant_id : String) (at : ℕ) (p : PolicyRow) : Type 0 where
  pub tenant : p.tenant_id ≡ tenant_id
  pub active : p.status ≡ "active"
  pub current : InForce at p.effective_from p.effective_to

-- The project's own policy.
pub record IsOwn (tenant_id project_id : String) (at : ℕ) (p : PolicyRow) : Type 0 where
  pub active : IsActive tenant_id at p
  pub scope : p.scope ≡ "project"
  pub owner : p.project_id ≡ some project_id

-- A policy of the tenant that the project's bindings, if any, leave in place.
pub record IsInherited {N : Type 0} (tenant_id project_id : String) (at : ℕ)
    (bindings : List (BindingRow N)) (p : PolicyRow) : Type 0 where
  pub active : IsActive tenant_id at p
  pub scope : p.scope ≡ "global"
  pub no_owner : p.project_id ≡ none
  pub kept :
      (b : BindingRow N) → binding_for p.policy_key bindings ≡ some b → is_opted_out b ≡ false

some_inj : {A : Type 0} {a b : A} → some a ≡ some b → a ≡ b
some_inj e = cc

pub In-if : {A : Type 0} (x y : A) (b : Bool) → In x (if b then [] else y ∷ []) → x ≡ y
In-if x y true i = absurd i
In-if x y false (inl q) = q
In-if x y false (inr i) = absurd i

pub in_force→InForce : (at from to : ℕ) → in_force at from to ≡ true → InForce at from to
unfolding in_force
in_force→InForce at from to h = (ground arith, ground arith)

is_text→eq : (o : Option String) (s : String) → is_text o s ≡ true → o ≡ some s
is_text→eq none s h = cc
is_text→eq (some t) s h = ap some ((eq_iff t s).0 h)

is_null→eq : (o : Option String) → is_null o ≡ true → o ≡ none
is_null→eq none h = refl
is_null→eq (some t) h = cc

pub and_left : (a b : Bool) → (a && b) ≡ true → a ≡ true
and_left true b h = refl
and_left false b h = h

pub and_right : (a b : Bool) → (a && b) ≡ true → b ≡ true
and_right true b h = h
and_right false b h = cc

is_project_policy→IsOwn :
    (tenant_id project_id : String) (at : ℕ) (p : PolicyRow)
    → is_project_policy tenant_id project_id at p ≡ true
    → IsOwn tenant_id project_id at p
unfolding is_project_policy
is_project_policy→IsOwn tenant_id project_id at p h =
    let h₁ = and_left _ _ h in
    let h₂ = and_left _ _ h₁ in
    let h₃ = and_left _ _ h₂ in
    record {
      active = record {
        tenant = (eq_iff p.tenant_id tenant_id).0 (and_left _ _ h₃);
        active = (eq_iff p.status "active").0 (and_right (str_eq p.tenant_id tenant_id) _ h₃);
        current = in_force→InForce at p.effective_from p.effective_to (and_right _ _ h);
      };
      scope = (eq_iff p.scope "project").0 (and_right _ _ h₂);
      owner = is_text→eq p.project_id project_id (and_right _ _ h₁);
    }

is_global_policy→parts :
    (tenant_id : String) (at : ℕ) (p : PolicyRow)
    → is_global_policy tenant_id at p ≡ true
    → IsActive tenant_id at p × ((p.scope ≡ "global") × (p.project_id ≡ none))
unfolding is_global_policy
is_global_policy→parts tenant_id at p h =
    let h₁ = and_left _ _ h in
    let h₂ = and_left _ _ h₁ in
    let h₃ = and_left _ _ h₂ in
    (
      record {
        tenant = (eq_iff p.tenant_id tenant_id).0 (and_left _ _ h₃);
        active = (eq_iff p.status "active").0 (and_right (str_eq p.tenant_id tenant_id) _ h₃);
        current = in_force→InForce at p.effective_from p.effective_to (and_right _ _ h);
      },
      ((eq_iff p.scope "global").0 (and_right _ _ h₂), is_null→eq p.project_id (and_right _ _ h₁)),
    )

module _ {N : Type 0} where
  -- Of a policy that is handed on with the bindings, the binding, if any, leaves it in place.
  inherit→kept :
      (bindings : List (BindingRow N)) (p : PolicyRow) (e : EffectivePolicy N)
      → In e (inherit bindings p)
      → (e.policy ≡ p)
        × (e.binding ≡ binding_for p.policy_key bindings)
        × ((b : BindingRow N) → binding_for p.policy_key bindings ≡ some b → is_opted_out b ≡ false)
  unfolding inherit
  inherit→kept bindings p e i = elim (Option-cases (binding_for p.policy_key bindings)) [
    | inl q ↦
        let j = rw q at i in
        elim j [
          | inl s ↦ (ap (λ x. x.policy) s, ap (λ x. x.binding) s ∙ sym q, (λ b h. cc))
          | inr k ↦ absurd k
        ]
    | inr (b, q) ↦ elim (Bool-cases (is_opted_out b)) [
      | inl out ↦ let j = rw (q, out) at i in absurd j
      | inr kept ↦
          let j = rw (q, kept) at i in
          elim j [
            | inl s ↦ (
              ap (λ x. x.policy) s,
              ap (λ x. x.binding) s ∙ sym q,
              (λ b' h. subst (λ x. is_opted_out x ≡ false) (some_inj (sym q ∙ h)) kept),
            )
            | inr k ↦ absurd k
          ]
    ]
  ]

module _ {N : Type 0} (db : Database N) (tenant_id project_id : String) (at : ℕ) where
  abbrev pub current_bindings : List (BindingRow N)
  current_bindings = filter (is_current_binding tenant_id project_id at) db.policy_project_bindings

  -- The policy applies to the project.
  abbrev pub Applies : PolicyRow → Type 0
  Applies p =
      In p db.policies
      × (IsOwn tenant_id project_id at p ⊎ IsInherited tenant_id project_id at current_bindings p)

  pub effective_policies→Applies :
      (e : EffectivePolicy N)
      → In e (effective_policies db tenant_id project_id at)
      → Applies e.policy
  unfolding effective_policies
  effective_policies→Applies e i = elim (In-append e _ _ ((In-sort _ e _).0 i)) [
    | inl j ↦
        let (p, k, m) = In-flat_map (inherit current_bindings) e _ j in
        let (l, t) =
          In-filter (is_global_policy tenant_id at) p db.policies
            ((In-sort policy_before p _).0 k) in
        let (same, _, kept) = inherit→kept current_bindings p e m in
        let parts = is_global_policy→parts tenant_id at p t in
        rw same (
          l,
          inr (record { active = parts.0; scope = parts.1.0; no_owner = parts.1.1; kept = kept }),
        )
    | inr j ↦
        let (p, k, q) = In-map own e _ j in
        let (l, t) =
          In-filter (is_project_policy tenant_id project_id at) p db.policies
            ((In-sort policy_before p _).0 k) in
        rw q (l, inl (is_project_policy→IsOwn tenant_id project_id at p t))
  ]
