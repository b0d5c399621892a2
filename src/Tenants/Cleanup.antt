-- ===== src/Tenants/Cleanup.antt =====
-- What is left of a user that the auth service made for a request, and what an answer says.
use dep_customs.Prelude.{
  String, ◌≡◌, ◌⊎◌, refl, ap, subst, ◌∙◌, Bool, true, List, [], ◌∷◌, Option, none, some, inl, inr,
  arith, eq_refl, any, any-append, Bool-cases, Option-cases, if◌then◌else◌,
}
use dep_customs.Access.Projects.{ProjectMemberRow, ErrorResponse}
use dep_customs.Tenants.Users.{AuthAdminUser, replied}
use dep_customs.Tenants.Rows.{
  MembershipRow, TenantTables, answered, refused, is_membership, insert_membership, is_project_user,
  insert_project_member, with_project_member, record_member,
}
use dep_customs.Tenants.Members.{CreateMemberBody, CreatedMember, created_member, record_failure}
use dep_customs.Tenants.Effects.{insert_membership-append, insert_project_member-append}

abbrev pub is_project_member :
    (user_id tenant_id project_id : String) → List ProjectMemberRow → Bool
is_project_member user_id tenant_id project_id rows =
    any
      (is_project_user
        (record { project_id = project_id; tenant_id = tenant_id; user_id = user_id }))
      rows

-- The user is a member of the tenant, and of the project, if there is one.
abbrev pub HasAccess : (user_id tenant_id : String) → Option String → TenantTables → Type 0
HasAccess user_id tenant_id none t = any (is_membership user_id tenant_id) t.memberships ≡ true
HasAccess user_id tenant_id (some p) t =
    (any (is_membership user_id tenant_id) t.memberships ≡ true)
    × (is_project_member user_id tenant_id p t.project_members ≡ true)

added_membership :
    (user_id tenant_id role : String) (rows next : List MembershipRow)
    → insert_membership (record { user_id = user_id; tenant_id = tenant_id; role = role }) rows
      ≡ some next
    → any (is_membership user_id tenant_id) next ≡ true
unfolding is_membership
added_membership user_id tenant_id role rows next h =
    let row : MembershipRow = record { user_id = user_id; tenant_id = tenant_id; role = role } in
    ap (any (is_membership user_id tenant_id)) (insert_membership-append row rows next h).1
    ∙ any-append (is_membership user_id tenant_id) rows (row ∷ [])
    ∙ ground (arith, eq_refl user_id, eq_refl tenant_id)

pub added_project_member :
    (row : ProjectMemberRow) (rows next : List ProjectMemberRow)
    → insert_project_member row rows ≡ some next
    → any (is_project_user row) next ≡ true
added_project_member row rows next h =
    ap (any (is_project_user row)) (insert_project_member-append row rows next h)
    ∙ any-append (is_project_user row) rows (row ∷ [])
    ∙ ground (arith, eq_refl row.project_id, eq_refl row.user_id)

with_project_member-HasAccess :
    (user_id tenant_id : String) (scoped : Option String) (ms : List MembershipRow)
    (rows : List ProjectMemberRow) (next : TenantTables)
    → any (is_membership user_id tenant_id) ms ≡ true
    → with_project_member user_id tenant_id scoped ms rows ≡ some next
    → HasAccess user_id tenant_id scoped next
with_project_member-HasAccess user_id tenant_id none ms rows next m h =
    let e : record { memberships = ms; project_members = rows } ≡ next = cc h in
    subst (HasAccess user_id tenant_id none) e m
with_project_member-HasAccess user_id tenant_id (some p) ms rows next m h =
    let row : ProjectMemberRow = record {
      project_id = p;
      tenant_id = tenant_id;
      user_id = user_id;
    } in
    elim (Option-cases (insert_project_member row rows)) [
      | inl e ↦ let k = rw (e, with_project_member) at h in cc k
      | inr (rows', e) ↦
          let k : some (record { memberships = ms; project_members = rows' }) ≡ some next =
            rw (e, with_project_member) at h in
          let k' : record { memberships = ms; project_members = rows' } ≡ next = cc k in
          subst (HasAccess user_id tenant_id (some p)) k' (m, added_project_member row rows rows' e)
    ]

pub record_member-HasAccess :
    (commits : Bool) (user_id tenant_id role : String) (scoped : Option String)
    (t next : TenantTables)
    → record_member commits user_id tenant_id role scoped t ≡ some next
    → HasAccess user_id tenant_id scoped next
unfolding record_member
record_member-HasAccess commits user_id tenant_id role scoped t next h =
    let row : MembershipRow = record { user_id = user_id; tenant_id = tenant_id; role = role } in
    elim (Option-cases (insert_membership row t.memberships)) [
      | inl e ↦ let k = rw (e, record_member) at h in cc k
      | inr (ms, e) ↦
          let k : (if commits
                then with_project_member user_id tenant_id scoped ms t.project_members
                else none)
              ≡ some next =
            rw (e, record_member) at h in
          elim (Bool-cases commits) [
            | inl c ↦
                with_project_member-HasAccess user_id tenant_id scoped ms t.project_members next
                  (added_membership user_id tenant_id role t.memberships ms e) (rw c at k)
            | inr c ↦ let z = rw c at k in cc z
          ]
    ]

-- When the auth service has created the user of a new member, then either the user is recorded as a
-- member of the tenant, and of the project that is named, the request succeeds and no user is to be
-- deleted, or the tables are as they were, the request is refused and the auth service is asked to
-- delete the user again.
pub created_member-IsSettled :
    (commits : Bool) (tenant_id : String) (scoped : Option String) (body : CreateMemberBody)
    (user : AuthAdminUser) (t : TenantTables)
    → let h = created_member commits tenant_id scoped body (replied user) t in
      ((a : CreatedMember) × (h.answer ≡ answered a)
        × (h.delete_requests ≡ [])
        × HasAccess user.id tenant_id scoped h.tables)
      ⊎ ((e : ErrorResponse) × (h.answer ≡ refused e)
          × (h.delete_requests ≡ user.id ∷ [])
          × (h.tables ≡ t))
unfolding created_member
created_member-IsSettled commits tenant_id scoped body user t =
    elim (Option-cases (record_member commits user.id tenant_id body.role scoped t)) [
      | inl e ↦ inr (
        record_failure,
        rw (e, created_member) refl,
        rw (e, created_member) refl,
        rw (e, created_member) refl,
      )
      | inr (next, e) ↦ inl (
        record { email = body.email; role = body.role },
        rw (e, created_member) refl,
        rw (e, created_member) refl,
        rw (e, created_member)
            (record_member-HasAccess commits user.id tenant_id body.role scoped t next e),
      )
    ]
