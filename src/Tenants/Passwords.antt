-- ===== src/Tenants/Passwords.antt =====
-- features/tenants/member-routes.ts: an administrator sets a member's password.
pub mod Reset
use dep_customs.Prelude.{
  String, Bool, false, not, List, [], ◌∷◌, Option, none, some, str_eq, find, if◌then◌else◌, is_some,
}
use dep_customs.Access.Projects.{ErrorResponse, ok_result, error_result}
use dep_customs.Tenants.Guards.{Caller, error_of}
use dep_customs.Tenants.Users.{
  AuthAdminUser, AuthFailure, misconfigured, other, upstream, Reply, replied, failed, get_user,
}
use dep_customs.Tenants.Rows.{MembershipRow, Answer, answered, refused, rejected, is_membership}
use dep_customs.Tenants.Members.{is_password, member_guard, user_not_found}

-- the users whose password the auth service was told to set, and the answer
pub record PasswordReset : Type 0 where
  pub updates : List (String × String)
  pub answer : Answer (Unit {0})

abbrev pub no_update : Answer (Unit {0}) → PasswordReset
no_update answer = record { updates = []; answer = answer }

abbrev reset_failure : AuthFailure → ErrorResponse
reset_failure misconfigured = error_of 500 "SERVER_MISCONFIGURED" "Auth service is not configured"
reset_failure other = error_of 500 "RESET_FAILED" "Failed to reset password"
reset_failure (upstream status) = error_of 500 "RESET_FAILED" "Failed to reset password"

abbrev update_answer : Reply (Unit {0}) → Answer (Unit {0})
update_answer (replied _) = answered tt
update_answer (failed e) = refused (reset_failure e)

abbrev pub is_provider : String → Option String → Bool
is_provider name none = false
is_provider name (some p) = str_eq p name

unfoldable pub reset_of :
    (user_id password : String)
    → Reply (Option AuthAdminUser)
    → (update_user : Reply (Unit {0})) → PasswordReset
reset_of user_id password (failed e) update_user = no_update (refused (reset_failure e))
reset_of user_id password (replied none) update_user =
    no_update (refused (error_of 404 "USER_NOT_FOUND" "User not found in auth system"))
reset_of user_id password (replied (some user)) update_user =
    if is_provider "email" user.provider
    then record { updates = (user_id, password) ∷ []; answer = update_answer update_user }
    else no_update
        (refused (error_of 400 "SSO_ACCOUNT" "Cannot reset password for SSO-managed accounts"))

unfoldable pub reset_password :
    (is_uuid : String → Bool)
    → Caller
    → (tenant_id user_id password : String) → (user_reply : String → Reply AuthAdminUser)
    → (update_user : Reply (Unit {0})) → List MembershipRow
    → PasswordReset
reset_password is_uuid caller tenant_id user_id password user_reply update_user memberships =
    if not (is_password password)
    then no_update rejected
    else elim (member_guard is_uuid caller tenant_id user_id "members.reset_password") [
      | error_result e ↦ no_update (refused e)
      | ok_result (tenant, user) ↦
          if is_some (find (is_membership user tenant) memberships)
          then reset_of user password (get_user (user_reply user)) update_user
          else no_update (refused user_not_found)
    ]
