-- ===== src/Tenants/Handlers.antt =====
-- What the handlers of features/tenants do to the tables.
use dep_customs.Prelude.{
  String, ◌≡◌, refl, ap, Bool, List, map, Option, none, some, inl, inr, arith, str_eq, eq_iff, find,
  Bool-cases, Option-cases,
}
use dep_customs.Access.Projects.{HttpResult-cases, ProjectRow, ok_result}
use dep_customs.Tenants.Guards.{Caller}
use dep_customs.Tenants.Users.{find_user_by_email, AuthAdminUser, Reply, replied, failed}
use dep_customs.Tenants.Rows.{
  MembershipRow, TenantTables, is_membership, record_member, scoped_project_id,
}
use dep_customs.Tenants.Members.{
  set_role, create_member_guard, require_scoped_access, member_guard, is_manageable_tenant_role,
  CreateMemberBody, create_member_schema, created_member, create_member, changed_role,
  patch_member_role,
}
use dep_customs.Tenants.Grants.{
  grant_guard, InviteMemberBody, granted, grant_tenant_access, grant_to_member, grant_to_user,
  grant_to_invited, project_added, invite_member_schema,
}
use dep_customs.Tenants.Giving.{MayGive, write_gives}
use dep_customs.Tenants.Effects.{
  Effect, unchanged, added_to_project, changed, record_member-Effect, add_project_member-Adds,
}
use dep_customs.Tenants.Permits.{create_member_guard-ok, grant_guard-ok, member_guard-ok}

module _ (projects : List ProjectRow) (caller : Caller) where
  created_member-Effect :
      (commits : Bool) (tenant : String) (scoped : Option String) (body : CreateMemberBody)
      (user : Reply AuthAdminUser) (x : Unit {0}) (t : TenantTables)
      → tenant ≡ caller.tenant_id
      → MayGive caller body.role
      → require_scoped_access projects t.project_members caller scoped ≡ ok_result x
      → Effect projects caller t (created_member commits tenant scoped body user t).tables
  unfolding created_member
  created_member-Effect commits tenant scoped body (failed e) x t own may a = unchanged t refl
  created_member-Effect commits tenant scoped body (replied user) x t own may a =
      elim (Option-cases (record_member commits user.id tenant body.role scoped t)) [
        | inl e ↦ unchanged _ (rw (e, created_member) refl)
        | inr (next, e) ↦
            rw (e, created_member)
              (record_member-Effect projects caller commits user.id tenant body.role scoped x t next
                a own may e)
      ]

  changed_role-Effect :
      (tenant user role : String) (t : TenantTables)
      → tenant ≡ caller.tenant_id
      → MayGive caller role
      → Effect projects caller t (changed_role tenant user role t).tables
  unfolding changed_role
  changed_role-Effect tenant user role t own may =
      elim (Option-cases (find (is_membership user tenant) t.memberships)) [
        | inl e ↦ unchanged _ (rw (e, changed_role) refl)
        | inr (m, e) ↦ elim (Bool-cases (str_eq m.role "owner")) [
          | inl o ↦ unchanged _ (rw (e, changed_role, o) refl)
          | inr o ↦
              changed _ user role m
                (rw (e, changed_role, o)
                  (ap (λ k. record t { memberships = map (set_role user k role) t.memberships })
                    own))
                may (rw (← own) e) (λ q. ground (arith, eq_iff m.role "owner"))
        ]
      ]

  grant_to_member-Effect :
      (tenant : String) (scoped : Option String) (body : InviteMemberBody) (user_id : String)
      (m : MembershipRow) (x : Unit {0}) (t : TenantTables)
      → tenant ≡ caller.tenant_id
      → require_scoped_access projects t.project_members caller scoped ≡ ok_result x
      → Effect projects caller t (grant_to_member tenant scoped body user_id m t).tables
  unfolding grant_to_member project_added
  grant_to_member-Effect tenant none body user_id m x t own a = unchanged _ refl
  grant_to_member-Effect tenant (some p) body user_id m x t own a =
      added_to_project _ refl
        (add_project_member-Adds projects caller p user_id tenant x t.project_members own a)

  grant_to_user-Effect :
      (commits : Bool) (tenant : String) (scoped : Option String) (body : InviteMemberBody)
      (user_id : String) (x : Unit {0}) (t : TenantTables)
      → tenant ≡ caller.tenant_id
      → MayGive caller body.role
      → require_scoped_access projects t.project_members caller scoped ≡ ok_result x
      → Effect projects caller t (grant_to_user commits tenant scoped body user_id t).tables
  unfolding grant_to_user
  grant_to_user-Effect commits tenant scoped body user_id x t own may a =
      elim (Option-cases (record_member commits user_id tenant body.role scoped t)) [
        | inl e ↦ unchanged _ (rw (e, grant_to_user) refl)
        | inr (next, e) ↦
            rw (e, grant_to_user)
              (record_member-Effect projects caller commits user_id tenant body.role scoped x t next
                a own may e)
      ]

  grant_to_invited-Effect :
      (commits : Bool) (tenant : String) (scoped : Option String) (body : InviteMemberBody)
      (user : Reply AuthAdminUser) (x : Unit {0}) (t : TenantTables)
      → tenant ≡ caller.tenant_id
      → MayGive caller body.role
      → require_scoped_access projects t.project_members caller scoped ≡ ok_result x
      → Effect projects caller t (grant_to_invited commits tenant scoped body user t).tables
  unfolding grant_to_invited
  grant_to_invited-Effect commits tenant scoped body (failed e) x t own may a = unchanged t refl
  grant_to_invited-Effect commits tenant scoped body (replied user) x t own may a =
      elim (Option-cases (record_member commits user.id tenant body.role scoped t)) [
        | inl e ↦ unchanged _ (rw (e, grant_to_invited) refl)
        | inr (next, e) ↦
            rw (e, grant_to_invited)
              (record_member-Effect projects caller commits user.id tenant body.role scoped x t next
                a own may e)
      ]

  granted-Effect :
      (commits : Bool) (tenant : String) (scoped : Option String) (body : InviteMemberBody)
      (find_user : Reply (Option AuthAdminUser)) (invite_user : Reply AuthAdminUser) (x : Unit {0})
      (t : TenantTables)
      → tenant ≡ caller.tenant_id
      → MayGive caller body.role
      → require_scoped_access projects t.project_members caller scoped ≡ ok_result x
      → Effect projects caller t (granted commits tenant scoped body find_user invite_user t).tables
  unfolding granted
  granted-Effect commits tenant scoped body (failed e) invite_user x t own may a = unchanged t refl
  granted-Effect commits tenant scoped body (replied none) invite_user x t own may a =
      grant_to_invited-Effect commits tenant scoped body invite_user x t own may a
  granted-Effect commits tenant scoped body (replied (some user)) invite_user x t own may a =
      elim (Option-cases (find (is_membership user.id tenant) t.memberships)) [
        | inl e ↦
            rw (e, granted) (grant_to_user-Effect commits tenant scoped body user.id x t own may a)
        | inr (m, e) ↦
            rw (e, granted) (grant_to_member-Effect tenant scoped body user.id m x t own a)
      ]

  -- What a request to make a member does.
  pub create_member-Effect :
      (is_uuid is_email : String → Bool) (tenant_id : String) (body : CreateMemberBody)
      (user : Reply AuthAdminUser) (commits : Bool) (t : TenantTables)
      → Effect projects caller t
          (create_member is_uuid is_email projects caller tenant_id body user commits t).tables
  unfolding create_member
  create_member-Effect is_uuid is_email tenant_id body user commits t =
      let scoped = scoped_project_id body.role body.project_id in
      elim (Bool-cases (create_member_schema is_uuid is_email body)) [
        | inr s ↦ unchanged _ (rw s refl)
        | inl s ↦
            elim (HttpResult-cases (
              create_member_guard is_uuid projects t.project_members caller tenant_id body.role
                scoped)) [
                  | inl (e, g) ↦ unchanged _ (rw (s, g, create_member) refl)
                  | inr (tenant, g) ↦
                      let (own, may, (x, a)) =
                        create_member_guard-ok projects caller is_uuid tenant_id body.role
                          t.project_members scoped tenant g in
                      rw (s, g, create_member)
                        (created_member-Effect commits tenant scoped body user x t own may a)
                ]
      ]

  -- What a request to give access does.
  pub grant_tenant_access-Effect :
      (is_uuid is_email : String → Bool) (to_lower_case : String → String) (tenant_id : String)
      (body : InviteMemberBody) (users : Reply (List AuthAdminUser))
      (invite_user : Reply AuthAdminUser) (commits : Bool) (t : TenantTables)
      → Effect projects caller t
          (grant_tenant_access is_uuid is_email to_lower_case projects caller tenant_id body users
            invite_user commits t).tables
  unfolding grant_tenant_access
  grant_tenant_access-Effect is_uuid is_email to_lower_case tenant_id body users invite_user commits
        t =
      let scoped = scoped_project_id body.role body.project_id in
      elim (Bool-cases (invite_member_schema is_uuid is_email body)) [
        | inr s ↦ unchanged _ (rw s refl)
        | inl s ↦
            elim (HttpResult-cases
              (grant_guard is_uuid projects t.project_members caller tenant_id body.role scoped)) [
                | inl (e, g) ↦ unchanged _ (rw (s, g, grant_tenant_access) refl)
                | inr (tenant, g) ↦
                    let (own, may, (x, a)) =
                      grant_guard-ok projects caller is_uuid tenant_id body.role t.project_members
                        scoped tenant g in
                    rw (s, g, grant_tenant_access)
                      (granted-Effect commits tenant scoped body
                        (find_user_by_email to_lower_case body.email users) invite_user x t own may
                        a)
              ]
      ]

  -- What a request to change a role does.
  pub patch_member_role-Effect :
      (is_uuid : String → Bool) (tenant_id user_id role : String) (t : TenantTables)
      → Effect projects caller t (patch_member_role is_uuid caller tenant_id user_id role t).tables
  unfolding patch_member_role
  patch_member_role-Effect is_uuid tenant_id user_id role t =
      elim (Bool-cases (is_manageable_tenant_role role)) [
        | inr s ↦ unchanged _ (rw s refl)
        | inl s ↦
            elim (HttpResult-cases
              (member_guard is_uuid caller tenant_id user_id "members.write_roles")) [
                | inl (e, g) ↦ unchanged _ (rw (s, g, patch_member_role) refl)
                | inr ((tenant, user), g) ↦
                    let (own, c) =
                      member_guard-ok projects caller is_uuid tenant_id user_id
                        "members.write_roles" tenant user g in
                    rw (s, g, patch_member_role)
                      (changed_role-Effect tenant user role t own (write_gives caller role c s))
              ]
      ]
