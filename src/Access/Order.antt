-- ===== src/Access/Order.antt =====
-- How the roles of middleware/rbac.ts compare.
use dep_customs.Prelude.{
  String, ◌≡◌, refl, Bool, true, List, [], ◌∷◌, arith, str_eq, eq_iff, any, all, inl, inr,
  Bool-cases,
}
use dep_customs.Access.{
  Role, owner, admin, demo, member, guest, role_capabilities, CapabilityContext, can_perform,
}

-- `AtMost r s`: the role `r` stands at or below `s`.
pub data AtMost : Role → Role → Type 0 where
  guest_member : AtMost guest member
  guest_demo : AtMost guest demo
  member_admin : AtMost member admin
  demo_admin : AtMost demo admin
  admin_owner : AtMost admin owner
  same : (r : Role) → AtMost r r
  step : (r s t : Role) → AtMost r s → AtMost s t → AtMost r t

-- The first list is part of the second.
abbrev is_part : List String → List String → Bool
is_part xs ys = all (λ x. any (str_eq x) ys) xs

any-part :
    (c : String) (xs ys : List String)
    → is_part xs ys ≡ true
    → any (str_eq c) xs ≡ true
    → any (str_eq c) ys ≡ true
any-part c [] ys h k = cc
any-part c (x ∷ xs) ys h k = elim (Bool-cases (str_eq c x)) [
  | inl e ↦ rw ((eq_iff c x).0 e) (ground (arith, h))
  | inr e ↦ any-part c xs ys (ground (arith, h)) (ground (arith, e, k))
]

role_capabilities-part :
    (r s : Role) (c : String)
    → AtMost r s
    → any (str_eq c) (role_capabilities r) ≡ true
    → any (str_eq c) (role_capabilities s) ≡ true
unfolding role_capabilities
role_capabilities-part _ _ c guest_member k =
    any-part c (role_capabilities guest) (role_capabilities member) refl k
role_capabilities-part _ _ c guest_demo k =
    any-part c (role_capabilities guest) (role_capabilities demo) refl k
role_capabilities-part _ _ c member_admin k =
    any-part c (role_capabilities member) (role_capabilities admin) refl k
role_capabilities-part _ _ c demo_admin k =
    any-part c (role_capabilities demo) (role_capabilities admin) refl k
role_capabilities-part _ _ c admin_owner k =
    any-part c (role_capabilities admin) (role_capabilities owner) refl k
role_capabilities-part _ _ c (same r) k = k
role_capabilities-part _ _ c (step r s t a b) k =
    role_capabilities-part s t c b (role_capabilities-part r s c a k)

-- What a role may do in a context, every role above it may do in the same context: guests stand below
-- members and demo users, these below admins, and admins below the owner.
can_perform-AtMost :
    (r s : Role) (capability : String) (context : CapabilityContext)
    → AtMost r s
    → can_perform r capability context ≡ true
    → can_perform s capability context ≡ true
unfolding can_perform
can_perform-AtMost r s c context a h = ground (arith, role_capabilities-part r s c a)
