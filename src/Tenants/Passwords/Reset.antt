-- ===== src/Tenants/Passwords/Reset.antt =====
-- Whose password may be set.
use dep_customs.Prelude.{
  String, ◌≡◌, refl, Bool, true, List, [], Option, none, some, inl, inr, find, Bool-cases,
  Option-cases, In,
}
use dep_customs.Access.Projects.{HttpResult-cases}
use dep_customs.Tenants.Guards.{Caller, has_tenant_capability}
use dep_customs.Tenants.Users.{AuthAdminUser, Reply, replied, failed, get_user}
use dep_customs.Tenants.Rows.{MembershipRow, is_membership}
use dep_customs.Tenants.Members.{is_password, member_guard}
use dep_customs.Tenants.Permits.{member_guard-ok}
use dep_customs.Tenants.Passwords.{is_provider, reset_of, reset_password}

-- why the update of a user's password is sent
pub record IsAllowed (caller : Caller) (user_reply : String → Reply AuthAdminUser)
    (memberships : List MembershipRow) (user_id password : String) : Type 0 where
  pub capability : has_tenant_capability caller "members.reset_password" ≡ true
  pub row : MembershipRow
  pub found : find (is_membership user_id caller.tenant_id) memberships ≡ some row
  pub user : AuthAdminUser
  pub known : get_user (user_reply user_id) ≡ replied (some user)
  pub provider : is_provider "email" user.provider ≡ true
  pub long : is_password password ≡ true

reset_of-provider :
    (user_id password : String) (reply : Reply (Option AuthAdminUser))
    (update_user : Reply (Unit {0})) (update : String × String)
    → In update (reset_of user_id password reply update_user).updates
    → (user : AuthAdminUser) × (reply ≡ replied (some user))
      × (is_provider "email" user.provider ≡ true)
      × (update ≡ (user_id, password))
unfolding reset_of
reset_of-provider user_id password (failed e) update_user update i = absurd i
reset_of-provider user_id password (replied none) update_user update i = absurd i
reset_of-provider user_id password (replied (some user)) update_user update i =
    elim (Bool-cases (is_provider "email" user.provider)) [
      | inl p ↦ elim (rw p at i) [ inl e ↦ (user, refl, p, e) | inr z ↦ absurd z ]
      | inr p ↦ let z = rw p at i in absurd z
    ]

-- If the auth service is told to set a password, then it is the one of the request and of at least
-- eight characters, the caller has the capability to reset passwords, the user is a member of the
-- caller's own tenant, and the service knows the user as one that signs in by email.
pub reset_password-IsAllowed :
    (is_uuid : String → Bool) (caller : Caller) (tenant_id user_id password : String)
    (user_reply : String → Reply AuthAdminUser) (update_user : Reply (Unit {0}))
    (memberships : List MembershipRow) (update : String × String)
    → In update
        (reset_password is_uuid caller tenant_id user_id password user_reply update_user
          memberships).updates
    → (update.1 ≡ password) × IsAllowed caller user_reply memberships update.0 password
unfolding reset_password
reset_password-IsAllowed is_uuid caller tenant_id user_id password user_reply update_user
      memberships update i =
    elim (Bool-cases (is_password password)) [
      | inr s ↦ let z = rw s at i in absurd z
      | inl s ↦
          elim (HttpResult-cases
            (member_guard is_uuid caller tenant_id user_id "members.reset_password")) [
              | inl (e, g) ↦ let z = rw (s, g, reset_password) at i in absurd z
              | inr ((tenant, user), g) ↦
                  let (own, c) =
                    member_guard-ok [] caller is_uuid tenant_id user_id "members.reset_password"
                      tenant user g in
                  elim (Option-cases (find (is_membership user tenant) memberships)) [
                    | inl f ↦ let z = rw (s, g, f, reset_password) at i in absurd z
                    | inr (row, f) ↦
                        let (u, k, p, e) =
                          reset_of-provider user password (get_user (user_reply user)) update_user
                            update (rw (s, g, f, reset_password) at i) in
                        rw e (
                          refl,
                          record {
                            capability = c;
                            row = row;
                            found = rw (← own) f;
                            user = u;
                            known = k;
                            provider = p;
                            long = s;
                          },
                        )
                  ]
            ]
    ]
