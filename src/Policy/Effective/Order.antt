-- ===== src/Policy/Effective/Order.antt =====
-- The order in which the rules of a snapshot are evaluated, and that sorting loses none of them.
use mathlib.Core.List.{Perm}
use dep_customs.Prelude.{
  ℕ, ◌<◌, ◌≤◌, String, ◌≡◌, ◌⊎◌, true, false, arith, flat_map, List, [], ◌∷◌, All, All-map,
  sort-perm, IsSorted, sort-IsSorted,
}
use dep_customs.Policy.Value.{JsNumber}
use dep_customs.Policy.Rules.{ResolvedRule}
use dep_customs.Policy.Tables.{Database, ResolvedPolicy}
use dep_customs.Policy.Effective.{rule_before, load_effective_policy}

module _ {N : Type 0} where
  rule_before_asym : (a b : ResolvedRule N) → rule_before a b ≡ true → rule_before b a ≡ false
  unfolding rule_before
  rule_before_asym a b h = ground arith

  -- The first rule may stand in front of the second: its priority is a smaller number, or the
  -- priorities are equal and its order index is no larger.
  abbrev pub IsInFront : (a b : ResolvedRule N) → Type 0
  IsInFront a b =
      (a.policy_priority < b.policy_priority)
      ⊎ ((a.policy_priority ≡ b.policy_priority) × (a.order_index ≤ b.order_index))

  -- Each rule may stand in front of all those that follow it.
  abbrev pub IsOrdered : List (ResolvedRule N) → Type 0
  IsOrdered [] = Unit
  IsOrdered (r ∷ rules) = All (IsInFront r) rules × IsOrdered rules

  rule_before-IsInFront : (a b : ResolvedRule N) → rule_before b a ≡ false → IsInFront a b
  unfolding rule_before
  rule_before-IsInFront a b h = ground arith

  IsSorted-IsOrdered :
      (rules : List (ResolvedRule N)) → IsSorted rule_before rules → IsOrdered rules
  IsSorted-IsOrdered [] _ = tt
  IsSorted-IsOrdered (r ∷ rules) (h, s) = (
    All-map rule_before (λ x. rule_before x r ≡ false) (IsInFront r) rules
        (λ x before. rule_before-IsInFront r x before) h,
    IsSorted-IsOrdered rules s,
  )

  rule_before_trans :
      (a b c : ResolvedRule N)
      → rule_before b a ≡ false
      → rule_before c b ≡ false
      → rule_before c a ≡ false
  unfolding rule_before
  rule_before_trans a b c h k = ground arith

module _ {N : Type 0} ⦃js : JsNumber N⦄ (db : Database N) (tenant_id project_id : String)
    (at : ℕ) where
  -- The rules of the snapshot are those of its policies, no more and no fewer, by ascending priority
  -- of their policies and, in the same priority, by ascending order index.
  pub all_rules-IsOrdered :
      Perm (load_effective_policy db tenant_id project_id at).all_rules (
        flat_map
          (λ (p : ResolvedPolicy N). p.rules)
          (load_effective_policy db tenant_id project_id at).policies)
      × IsOrdered (load_effective_policy db tenant_id project_id at).all_rules
  unfolding load_effective_policy
  all_rules-IsOrdered = (
    sort-perm rule_before _,
    IsSorted-IsOrdered _ (sort-IsSorted rule_before rule_before_asym rule_before_trans _),
  )
