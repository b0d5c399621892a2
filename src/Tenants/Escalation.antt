-- ===== src/Tenants/Escalation.antt =====
-- No one gives a role above his own, or access to a project that is closed to him.
use dep_customs.Prelude.{
  String, ◌≡◌, ◌⊎◌, subst, Bool, true, false, List, [], ◌∷◌, map, inl, inr, arith, eq_iff, In,
  In-append, In-map, Bool-cases,
}
use dep_customs.Access.Projects.{ProjectMemberRow, ProjectRow, ok_result}
use dep_customs.Tenants.Guards.{Caller, require_resolved_project_access}
use dep_customs.Tenants.Rows.{MembershipRow, TenantTables, is_membership}
use dep_customs.Tenants.Members.{set_role}
use dep_customs.Tenants.Giving.{MayGive}
use dep_customs.Tenants.Effects.{Adds, Effect, unchanged, added_to_project, joined, changed}
use dep_customs.Tenants.Requests.{Request, handle_request, handle_request-Effect}

-- A membership was there, or it is in the caller's tenant and its role is one that he may give.
abbrev pub IsGiven : Caller → TenantTables → MembershipRow → Type 0
IsGiven caller t m = In m t.memberships ⊎ ((m.tenant_id ≡ caller.tenant_id) × MayGive caller m.role)

-- A project membership was there, or it is in the caller's tenant and of a project that he can see.
abbrev pub IsShared : List ProjectRow → Caller → TenantTables → ProjectMemberRow → Type 0
IsShared projects caller t row =
    In row t.project_members
    ⊎ ((row.tenant_id ≡ caller.tenant_id)
        × ((project : ProjectRow) × (require_resolved_project_access projects t.project_members
                caller row.project_id false
              ≡ ok_result project)))

Adds-IsShared :
    (projects : List ProjectRow) (caller : Caller) (t : TenantTables) (next : List ProjectMemberRow)
    (row : ProjectMemberRow)
    → Adds projects caller t.project_members next
    → In row next
    → IsShared projects caller t row
Adds-IsShared projects caller t next row (inl e) i = inl (subst (In row) e i)
Adds-IsShared projects caller t next row (inr (new, project, e, own, access)) i =
    elim (In-append row t.project_members (new ∷ []) (subst (In row) e i)) [
      | inl j ↦ inl j
      | inr (inl q) ↦ inr (rw q (own, (project, access)))
      | inr (inr j) ↦ absurd j
    ]

matched-tenant :
    (user_id tenant_id : String) (m : MembershipRow)
    → is_membership user_id tenant_id m ≡ true
    → m.tenant_id ≡ tenant_id
unfolding is_membership
matched-tenant user_id tenant_id m h = ground (arith, eq_iff m.tenant_id tenant_id)

set_role-IsGiven :
    (caller : Caller) (t : TenantTables) (user_id role : String) (m : MembershipRow)
    → MayGive caller role
    → In m (map (set_role user_id caller.tenant_id role) t.memberships)
    → IsGiven caller t m
set_role-IsGiven caller t user_id role m may i =
    let (old, j, e) = In-map (set_role user_id caller.tenant_id role) m t.memberships i in
    elim (Bool-cases (is_membership user_id caller.tenant_id old)) [
      | inl k ↦
          let q : m ≡ record old { role = role } = rw k at e in
          inr (rw q (matched-tenant user_id caller.tenant_id old k, may))
      | inr k ↦ let q : m ≡ old = rw k at e in inl (rw q j)
    ]

Effect-IsGiven :
    (projects : List ProjectRow) (caller : Caller) (t u : TenantTables)
    → Effect projects caller t u
    → ((m : MembershipRow) → In m u.memberships → IsGiven caller t m)
      × ((row : ProjectMemberRow) → In row u.project_members → IsShared projects caller t row)
Effect-IsGiven projects caller t u (unchanged _ e) = (
  (λ m i. inl (subst (λ (x : TenantTables). In m x.memberships) e i)),
  (λ row i. inl (subst (λ (x : TenantTables). In row x.project_members) e i)),
)
Effect-IsGiven projects caller t u (added_to_project _ e adds) = (
  (λ m i. inl (subst (In m) e i)),
  (λ row i. Adds-IsShared projects caller t u.project_members row adds i),
)
Effect-IsGiven projects caller t u (joined _ new e own may _ adds) = (
  (λ m i. elim (In-append m t.memberships (new ∷ []) (subst (In m) e i)) [
    | inl j ↦ inl j
    | inr (inl q) ↦ inr (rw q (own, may))
    | inr (inr j) ↦ absurd j
  ]),
  (λ row i. Adds-IsShared projects caller t u.project_members row adds i),
)
Effect-IsGiven projects caller t u (changed _ user role existing e may _ _) = (
  (λ m i.
      set_role-IsGiven caller t user role m may
        (subst (λ (x : TenantTables). In m x.memberships) e i)),
  (λ row i. inl (subst (λ (x : TenantTables). In row x.project_members) e i)),
)

-- After a request every membership was there before, or is one in the caller's tenant with a role
-- that is not above the caller's own and not the owner's. Every project membership was there before,
-- or is one in the caller's tenant of a project that the caller has access to.
pub handle_request-IsGiven :
    (is_uuid is_email : String → Bool) (to_lower_case : String → String) (r : Request)
    (t : TenantTables)
    → ((m : MembershipRow)
        → In m (handle_request is_uuid is_email to_lower_case r t).memberships
        → IsGiven r.caller t m)
      × ((row : ProjectMemberRow)
          → In row (handle_request is_uuid is_email to_lower_case r t).project_members
          → IsShared r.projects r.caller t row)
handle_request-IsGiven is_uuid is_email to_lower_case r t =
    Effect-IsGiven r.projects r.caller t (handle_request is_uuid is_email to_lower_case r t)
      (handle_request-Effect is_uuid is_email to_lower_case r t)
