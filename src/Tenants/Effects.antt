-- ===== src/Tenants/Effects.antt =====
-- What a request may do to the tables, and what the transactions do.
use dep_customs.Prelude.{
  String, ◌≡◌, ◌≢◌, ◌⊎◌, refl, sym, ap, ◌∙◌, Bool, false, List, [], ◌∷◌, ◌++◌, map, Option, none,
  some, inl, inr, any, find, Bool-cases, Option-cases, if◌then◌else◌,
}
use dep_customs.Access.Projects.{ProjectMemberRow, ProjectRow, ok_result}
use dep_customs.Tenants.Guards.{Caller, require_resolved_project_access}
use dep_customs.Tenants.Rows.{
  MembershipRow, TenantTables, is_membership, record_member, insert_membership, with_project_member,
  insert_project_member, is_project_user,
}
use dep_customs.Tenants.Members.{set_role, require_scoped_access}
use dep_customs.Tenants.Grants.{project_added, add_project_member}
use dep_customs.Tenants.Giving.{MayGive, bind_ok}

-- The project rows stay, or a user is added to a project of the tenant that the caller has access to.
abbrev pub Adds : List ProjectRow → Caller → (rows next : List ProjectMemberRow) → Type 0
Adds projects caller rows next =
    (next ≡ rows)
    ⊎ ((row : ProjectMemberRow) × (project : ProjectRow) × (next ≡ rows ++ row ∷ [])
        × (row.tenant_id ≡ caller.tenant_id)
        × (require_resolved_project_access projects rows caller row.project_id false
            ≡ ok_result project))

pub data Effect (projects : List ProjectRow) (caller : Caller) (t : TenantTables)
    : TenantTables → Type 0 where
  unchanged : (u : TenantTables) → u ≡ t → Effect projects caller t u
  added_to_project :
      (u : TenantTables)
      → u.memberships ≡ t.memberships
      → Adds projects caller t.project_members u.project_members
      → Effect projects caller t u
  joined :
      (u : TenantTables) (row : MembershipRow)
      → u.memberships ≡ t.memberships ++ row ∷ []
      → row.tenant_id ≡ caller.tenant_id
      → MayGive caller row.role
      → any (is_membership row.user_id row.tenant_id) t.memberships ≡ false
      → Adds projects caller t.project_members u.project_members
      → Effect projects caller t u
  changed :
      (u : TenantTables) (user_id role : String) (existing : MembershipRow)
      → u ≡ record t { memberships = map (set_role user_id caller.tenant_id role) t.memberships }
      → MayGive caller role
      → find (is_membership user_id caller.tenant_id) t.memberships ≡ some existing
      → existing.role ≢ "owner"
      → Effect projects caller t u

pub insert_project_member-append :
    (row : ProjectMemberRow) (rows next : List ProjectMemberRow)
    → insert_project_member row rows ≡ some next
    → next ≡ rows ++ row ∷ []
unfolding insert_project_member
insert_project_member-append row rows next h = elim (Bool-cases (any (is_project_user row) rows)) [
  | inl e ↦ let k = rw e at h in cc k
  | inr e ↦ let k = rw e at h in cc k
]

pub insert_membership-append :
    (row : MembershipRow) (rows next : List MembershipRow)
    → insert_membership row rows ≡ some next
    → (any (is_membership row.user_id row.tenant_id) rows ≡ false) × (next ≡ rows ++ row ∷ [])
unfolding insert_membership
insert_membership-append row rows next h =
    elim (Bool-cases (any (is_membership row.user_id row.tenant_id) rows)) [
      | inl e ↦ let k = rw e at h in cc k
      | inr e ↦ (e, (let k = rw e at h in cc k))
    ]

module _ (projects : List ProjectRow) (caller : Caller) where
  -- access to the project that is named, if one is
  pub require_scoped_access-Adds :
      (rows : List ProjectMemberRow) (scoped : Option String) (x : Unit {0})
      (user_id tenant_id : String) (ms : List MembershipRow) (next : TenantTables)
      → require_scoped_access projects rows caller scoped ≡ ok_result x
      → tenant_id ≡ caller.tenant_id
      → with_project_member user_id tenant_id scoped ms rows ≡ some next
      → (next.memberships ≡ ms) × Adds projects caller rows next.project_members
  unfolding require_scoped_access
  require_scoped_access-Adds rows none x user_id tenant_id ms next h own q =
      let e : record { memberships = ms; project_members = rows } ≡ next = cc q in
      (
        ap (λ (t : TenantTables). t.memberships) (sym e),
        inl (ap (λ (t : TenantTables). t.project_members) (sym e)),
      )
  require_scoped_access-Adds rows (some p) x user_id tenant_id ms next h own q =
      let row : ProjectMemberRow = record {
        project_id = p;
        tenant_id = tenant_id;
        user_id = user_id;
      } in
      let (project, access, _) =
        bind_ok (require_resolved_project_access projects rows caller p false) (λ _. ok_result tt) x
          h in
      elim (Option-cases (insert_project_member row rows)) [
        | inl e ↦ let k = rw (e, with_project_member) at q in cc k
        | inr (rows', e) ↦
            let k : some (record { memberships = ms; project_members = rows' }) ≡ some next =
              rw (e, with_project_member) at q in
            let k' : record { memberships = ms; project_members = rows' } ≡ next = cc k in
            (
              ap (λ (t : TenantTables). t.memberships) (sym k'),
              inr (
                row,
                project,
                ap (λ (t : TenantTables). t.project_members) (sym k')
                    ∙ insert_project_member-append row rows rows' e,
                own,
                access,
              ),
            )
      ]

  pub record_member-Effect :
      (commits : Bool) (user_id tenant_id role : String) (scoped : Option String) (x : Unit {0})
      (t next : TenantTables)
      → require_scoped_access projects t.project_members caller scoped ≡ ok_result x
      → tenant_id ≡ caller.tenant_id
      → MayGive caller role
      → record_member commits user_id tenant_id role scoped t ≡ some next
      → Effect projects caller t next
  unfolding record_member
  record_member-Effect commits user_id tenant_id role scoped x t next h own may q =
      let row : MembershipRow = record { user_id = user_id; tenant_id = tenant_id; role = role } in
      elim (Option-cases (insert_membership row t.memberships)) [
        | inl e ↦ let k = rw (e, record_member) at q in cc k
        | inr (ms, e) ↦
            let (new, appended) = insert_membership-append row t.memberships ms e in
            let k : (if commits
                  then with_project_member user_id tenant_id scoped ms t.project_members
                  else none)
                ≡ some next =
              rw (e, record_member) at q in
            elim (Bool-cases commits) [
              | inl c ↦
                  let (kept, adds) =
                    require_scoped_access-Adds t.project_members scoped x user_id tenant_id ms next
                      h own (rw c at k) in
                  joined next row (kept ∙ appended) own may new adds
              | inr c ↦ let z = rw c at k in cc z
            ]
      ]

  pub add_project_member-Adds :
      (p user_id tenant : String) (x : Unit {0}) (rows : List ProjectMemberRow)
      → tenant ≡ caller.tenant_id
      → require_scoped_access projects rows caller (some p) ≡ ok_result x
      → Adds projects caller rows (project_added user_id tenant (some p) rows).0
  unfolding project_added add_project_member require_scoped_access
  add_project_member-Adds p user_id tenant x rows own a =
      let row : ProjectMemberRow = record {
        project_id = p;
        tenant_id = tenant;
        user_id = user_id;
      } in
      let (project, access, _) =
        bind_ok (require_resolved_project_access projects rows caller p false) (λ _. ok_result tt) x
          a in
      elim (Option-cases (insert_project_member row rows)) [
        | inl e ↦ inl (rw (e, add_project_member) refl)
        | inr (rows', e) ↦ inr (
          row,
          project,
          rw (e, add_project_member) (insert_project_member-append row rows rows' e),
          own,
          access,
        )
      ]
