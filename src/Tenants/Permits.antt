-- ===== src/Tenants/Permits.antt =====
-- What the checks of features/tenants say of a request that they let through.
use dep_customs.Prelude.{String, ◌≡◌, sym, ◌∙◌, Bool, true, ◌||◌, List, Option, is_some}
use dep_customs.Access.{
  can_direct_create_tenant_role, can_invite_tenant_role, can_invite_without_project_scope,
}
use dep_customs.Access.Projects.{ProjectMemberRow, ProjectRow, ErrorResponse, HttpResult, ok_result}
use dep_customs.Tenants.Guards.{
  ◌>>=◌, Caller, require, require_tenant_param_access, require_tenant_capability,
  has_tenant_capability, validate_uuid_param,
}
use dep_customs.Tenants.Members.{
  related, role_test, create_member_guard, require_scoped_access, member_guard,
}
use dep_customs.Tenants.Grants.{grant_guard}
use dep_customs.Tenants.Giving.{
  MayGive, bind_ok, require_ok, require_tenant_param_access-own, create_gives, grant_gives,
}

module _ (projects : List ProjectRow) (caller : Caller) where
  guard_steps :
      (is_uuid : String → Bool) (tenant_id : String) (capability message : String) (test : Bool)
      (e : ErrorResponse) (last : String → HttpResult String) (tenant : String)
      → (do
        t ← require_tenant_param_access is_uuid caller tenant_id
        _ ← require_tenant_capability caller capability message
        _ ← require test e
        last t)
        ≡ ok_result tenant
      → (t : String) × (t ≡ caller.tenant_id)
        × (has_tenant_capability caller capability ≡ true)
        × (test ≡ true)
        × (last t ≡ ok_result tenant)
  unfolding require_tenant_capability
  guard_steps is_uuid tenant_id capability message test e last tenant h =
      let (t, a, h1) = bind_ok (require_tenant_param_access is_uuid caller tenant_id) _ tenant h in
      let (x, b, h2) = bind_ok (require_tenant_capability caller capability message) _ tenant h1 in
      let (y, c, h3) = bind_ok (require test e) _ tenant h2 in
      (
        t,
        require_tenant_param_access-own is_uuid caller tenant_id t a,
        require_ok (has_tenant_capability caller capability) _ x b,
        require_ok test e y c,
        h3,
      )

  scoped_ok :
      (role : String) (rows : List ProjectMemberRow) (scoped : Option String) (t tenant : String)
      → t ≡ caller.tenant_id
      → MayGive caller role
      → (do _ ← require_scoped_access projects rows caller scoped; ok_result t) ≡ ok_result tenant
      → (tenant ≡ caller.tenant_id)
        × MayGive caller role
        × ((x : Unit {0}) × (require_scoped_access projects rows caller scoped ≡ ok_result x))
  scoped_ok role rows scoped t tenant own may h =
      let (x, a, k) =
        bind_ok (require_scoped_access projects rows caller scoped) (λ _. ok_result t) tenant h in
      let same : t ≡ tenant = cc k in (sym same ∙ own, may, (x, a))

  pub create_member_guard-ok :
      (is_uuid : String → Bool) (tenant_id role : String) (rows : List ProjectMemberRow)
      (scoped : Option String) (tenant : String)
      → create_member_guard is_uuid projects rows caller tenant_id role scoped ≡ ok_result tenant
      → (tenant ≡ caller.tenant_id)
        × MayGive caller role
        × ((x : Unit {0}) × (require_scoped_access projects rows caller scoped ≡ ok_result x))
  unfolding create_member_guard
  create_member_guard-ok is_uuid tenant_id role rows scoped tenant h =
      let (t, own, _, may, h1) =
        guard_steps is_uuid tenant_id "members.create_password_user" _
          (related can_direct_create_tenant_role caller.role role) _ _ tenant h in
      scoped_ok role rows scoped t tenant own (create_gives caller role may) h1

  pub grant_guard-ok :
      (is_uuid : String → Bool) (tenant_id role : String) (rows : List ProjectMemberRow)
      (scoped : Option String) (tenant : String)
      → grant_guard is_uuid projects rows caller tenant_id role scoped ≡ ok_result tenant
      → (tenant ≡ caller.tenant_id)
        × MayGive caller role
        × ((x : Unit {0}) × (require_scoped_access projects rows caller scoped ≡ ok_result x))
  unfolding grant_guard
  grant_guard-ok is_uuid tenant_id role rows scoped tenant h =
      let (t, own, c, may, h1) =
        guard_steps is_uuid tenant_id "members.invite" _
          (related can_invite_tenant_role caller.role role) _ _ tenant h in
      let (_, _, h2) =
        bind_ok
          (require (role_test can_invite_without_project_scope caller.role || is_some scoped) _) _
          tenant h1 in
      scoped_ok role rows scoped t tenant own (grant_gives caller role c may) h2

  pub member_guard-ok :
      (is_uuid : String → Bool) (tenant_id user_id capability tenant user : String)
      → member_guard is_uuid caller tenant_id user_id capability ≡ ok_result (tenant, user)
      → (tenant ≡ caller.tenant_id) × (has_tenant_capability caller capability ≡ true)
  unfolding member_guard require_tenant_capability
  member_guard-ok is_uuid tenant_id user_id capability tenant user h =
      let (t, a, h1) =
        bind_ok (require_tenant_param_access is_uuid caller tenant_id) _ (tenant, user) h in
      let (u, b, h2) =
        bind_ok (validate_uuid_param is_uuid user_id "User ID") _ (tenant, user) h1 in
      let (x, c, h3) =
        bind_ok (require_tenant_capability caller capability "Access denied") _ (tenant, user) h2 in
      let same : t ≡ tenant = cc h3 in
      (
        sym same ∙ require_tenant_param_access-own is_uuid caller tenant_id t a,
        require_ok (has_tenant_capability caller capability) _ x c,
      )
