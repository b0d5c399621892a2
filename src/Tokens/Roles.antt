-- ===== src/Tokens/Roles.antt =====
-- Who may create, read and manage the tokens of a project.
use dep_customs.Prelude.{
  String, ◌≡◌, ◌⊎◌, refl, Bool, false, ◌&&◌, ◌||◌, none, str_eq, eq_iff, inl, inr, Bool-cases,
}
use dep_customs.Access.{
  Role, role_name, owner, admin, demo, member, guest, tenant_role, is_owner_or_admin,
  role_capabilities, allowed_in, can_perform,
}
use dep_customs.Tokens.{TokenAction, revoke, rotate, can_manage_existing_token}

-- A text is the name of a role, or of none.
role_cases :
    (role : String)
    → ((r : Role) × (role ≡ role_name r))
      ⊎ ((tenant_role role ≡ none) × (str_eq role "member" ≡ false))
unfolding tenant_role
role_cases role = elim (Bool-cases (str_eq role "owner")) [
  | inl e ↦ inl (owner, (eq_iff role "owner").0 e)
  | inr o ↦ elim (Bool-cases (str_eq role "admin")) [
    | inl e ↦ inl (admin, (eq_iff role "admin").0 e)
    | inr a ↦ elim (Bool-cases (str_eq role "demo")) [
      | inl e ↦ inl (demo, (eq_iff role "demo").0 e)
      | inr d ↦ elim (Bool-cases (str_eq role "member")) [
        | inl e ↦ inl (member, (eq_iff role "member").0 e)
        | inr m ↦ elim (Bool-cases (str_eq role "guest")) [
          | inl e ↦ inl (guest, (eq_iff role "guest").0 e)
          | inr g ↦ inr (rw (o, a, d, m, g) refl, m)
        ]
      ]
    ]
  ]
]

-- the roles, one by one
named :
    (r : Role) (action : TokenAction) (owns : Bool)
    → can_manage_existing_token (role_name r) action owns
      ≡ (is_owner_or_admin (role_name r) || (str_eq (role_name r) "member" && owns))
unfolding can_manage_existing_token is_owner_or_admin tenant_role can_perform role_capabilities
    allowed_in
named owner revoke owns = refl
named owner rotate owns = refl
named admin revoke owns = refl
named admin rotate owns = refl
named demo revoke owns = refl
named demo rotate owns = refl
named member revoke owns = refl
named member rotate owns = refl
named guest revoke owns = refl
named guest rotate owns = refl

unnamed :
    (role : String) (action : TokenAction) (owns : Bool)
    → tenant_role role ≡ none
    → str_eq role "member" ≡ false
    → can_manage_existing_token role action owns
      ≡ (is_owner_or_admin role || (str_eq role "member" && owns))
unfolding can_manage_existing_token is_owner_or_admin
unnamed role revoke owns n m = rw (n, m) refl
unnamed role rotate owns n m = rw (n, m) refl

-- Owners and admins revoke and rotate every token, members the tokens that they own, and no other
-- role any token.
can_manage_existing_token-eq :
    (role : String) (action : TokenAction) (owns_token : Bool)
    → can_manage_existing_token role action owns_token
      ≡ (is_owner_or_admin role || (str_eq role "member" && owns_token))
can_manage_existing_token-eq role action owns = elim (role_cases role) [
  | inl (r, e) ↦ rw e (named r action owns)
  | inr (n, m) ↦ unnamed role action owns n m
]
