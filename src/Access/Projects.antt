-- ===== src/Access/Projects.antt =====
-- middleware/rbac.ts: access to a project, over the rows of project_members and projects.
use dep_customs.Prelude.{
  ℕ, String, ◌≡◌, ◌⊎◌, refl, Bool, true, false, ◌&&◌, ◌||◌, List, [], Option, none, some, inl, inr,
  arith, str_eq, eq_iff, if◌then◌else◌, any, find, In, Option-cases, Bool-cases, find-In, any-In,
}
use dep_customs.Access.{has_implicit_project_access}

pub record ProjectMemberRow : Type 0 where
  pub project_id : String
  pub tenant_id : String
  pub user_id : String

-- `is_current` is `effective_to = infinity`.
pub record ProjectRow : Type 0 where
  pub id : String
  pub tenant_id : String
  pub name : String
  pub is_current : Bool

-- http/responses.ts: a result, or the response of an error
pub record ErrorResponse : Type 0 where
  pub status : ℕ
  pub code : String
  pub message : String
  pub detail : Option String

pub data HttpResult {ℓ} (A : Type ℓ) : Type ℓ where
  ok_result : A → HttpResult A
  error_result : ErrorResponse → HttpResult A

pub HttpResult-cases :
    {A : Type 0} (r : HttpResult A)
    → ((e : ErrorResponse) × (r ≡ error_result e)) ⊎ ((a : A) × (r ≡ ok_result a))
HttpResult-cases (error_result e) = inl (e, refl)
HttpResult-cases (ok_result a) = inr (a, refl)

unfoldable pub is_member_row : (user_id project_id tenant_id : String) → ProjectMemberRow → Bool
is_member_row user_id project_id tenant_id m =
    str_eq m.project_id project_id && str_eq m.tenant_id tenant_id && str_eq m.user_id user_id

unfoldable pub check_project_access :
    List ProjectMemberRow → (user_id project_id tenant_id role : String) → Bool
check_project_access members user_id project_id tenant_id role =
    has_implicit_project_access role || any (is_member_row user_id project_id tenant_id) members

unfoldable pub is_current_project : (project_id tenant_id : String) → ProjectRow → Bool
is_current_project project_id tenant_id p =
    str_eq p.id project_id && str_eq p.tenant_id tenant_id && p.is_current

abbrev project_not_found : String → ErrorResponse
project_not_found project_id = record {
  status = 404;
  code = "NOT_FOUND";
  message = "Project not found";
  detail = some project_id;
}

abbrev access_denied : (hide : Bool) → String → ErrorResponse
access_denied hide project_id = record {
  status = if hide then 404 else 403;
  code = if hide then "NOT_FOUND" else "FORBIDDEN";
  message = if hide then "Project not found" else "Access denied to this project";
  detail = if hide then some project_id else none;
}

-- the second half, with the project that was found
abbrev with_project : (has_access hide : Bool) → String → Option ProjectRow → HttpResult ProjectRow
with_project has_access hide project_id none = error_result (project_not_found project_id)
with_project has_access hide project_id (some project) =
    if has_access then ok_result project else error_result (access_denied hide project_id)

unfoldable pub resolve_project_with_access :
    List ProjectRow
    → List ProjectMemberRow
    → (project_id tenant_id user_id role : String) → (hide_forbidden_as_not_found : Bool)
    → HttpResult ProjectRow
resolve_project_with_access projects members project_id tenant_id user_id role hide =
    with_project (check_project_access members user_id project_id tenant_id role) hide project_id
      (find (is_current_project project_id tenant_id) projects)

-- The user's membership of the project in the tenant.
pub record IsMember (members : List ProjectMemberRow) (user_id project_id tenant_id : String)
    : Type 0 where
  pub row : ProjectMemberRow
  pub stored : In row members
  pub project : row.project_id ≡ project_id
  pub tenant : row.tenant_id ≡ tenant_id
  pub user : row.user_id ≡ user_id

is_member_row-eq :
    (user_id project_id tenant_id : String) (m : ProjectMemberRow)
    → is_member_row user_id project_id tenant_id m ≡ true
    → (m.project_id ≡ project_id) × (m.tenant_id ≡ tenant_id) × (m.user_id ≡ user_id)
unfolding is_member_row
is_member_row-eq user_id project_id tenant_id m h = (
  ground (arith, eq_iff m.project_id project_id),
  ground (arith, eq_iff m.tenant_id tenant_id),
  ground (arith, eq_iff m.user_id user_id),
)

is_current_project-eq :
    (project_id tenant_id : String) (p : ProjectRow)
    → is_current_project project_id tenant_id p ≡ true
    → (p.id ≡ project_id) × (p.tenant_id ≡ tenant_id) × (p.is_current ≡ true)
unfolding is_current_project
is_current_project-eq project_id tenant_id p h = (
  ground (arith, eq_iff p.id project_id),
  ground (arith, eq_iff p.tenant_id tenant_id),
  ground arith,
)

check_project_access-cases :
    (members : List ProjectMemberRow) (user_id project_id tenant_id role : String)
    → check_project_access members user_id project_id tenant_id role ≡ true
    → (has_implicit_project_access role ≡ true) ⊎ IsMember members user_id project_id tenant_id
unfolding check_project_access
check_project_access-cases members user_id project_id tenant_id role h =
    elim (Bool-cases (has_implicit_project_access role)) [
      | inl e ↦ inl e
      | inr e ↦
          let (m, i, t) = any-In (is_member_row user_id project_id tenant_id) members (rw e at h) in
          let (p, q, r) = is_member_row-eq user_id project_id tenant_id m t in
          inr (record { row = m; stored = i; project = p; tenant = q; user = r })
    ]

-- A project that is handed out is a current one of the caller's tenant, under the asked id, and the
-- caller's role has access to every project or the caller is a member of it in this tenant.
pub resolve_project_with_access_granted :
    (projects : List ProjectRow) (members : List ProjectMemberRow)
    (project_id tenant_id user_id role : String) (hide : Bool) (p : ProjectRow)
    → resolve_project_with_access projects members project_id tenant_id user_id role hide
      ≡ ok_result p
    → In p projects
      × (p.id ≡ project_id)
      × (p.tenant_id ≡ tenant_id)
      × (p.is_current ≡ true)
      × ((has_implicit_project_access role ≡ true) ⊎ IsMember members user_id project_id tenant_id)
unfolding resolve_project_with_access
resolve_project_with_access_granted projects members project_id tenant_id user_id role hide p h =
    elim (Option-cases (find (is_current_project project_id tenant_id) projects)) [
      | inl e ↦ let k = rw e at h in cc k
      | inr (q, e) ↦
          elim (Bool-cases (check_project_access members user_id project_id tenant_id role)) [
            | inl a ↦
                let k : ok_result q ≡ ok_result p = rw (e, a) at h in
                let same : q ≡ p = cc k in
                let (i, t) = find-In (is_current_project project_id tenant_id) q projects e in
                let (own, tenant, current) = is_current_project-eq project_id tenant_id q t in
                rw (← same) (
                  i,
                  own,
                  tenant,
                  current,
                  check_project_access-cases members user_id project_id tenant_id role a,
                )
            | inr a ↦ let k = rw (e, a) at h in cc k
          ]
    ]

-- With denials hidden, a caller without access gets, for any project, the answer for a project that
-- does not exist.
resolve_project_with_access_hidden :
    (projects : List ProjectRow) (members : List ProjectMemberRow)
    (project_id tenant_id user_id role : String)
    → check_project_access members user_id project_id tenant_id role ≡ false
    → resolve_project_with_access projects members project_id tenant_id user_id role true
      ≡ resolve_project_with_access [] members project_id tenant_id user_id role true
unfolding resolve_project_with_access
resolve_project_with_access_hidden projects members project_id tenant_id user_id role h =
    elim (Option-cases (find (is_current_project project_id tenant_id) projects)) [
      | inl e ↦ rw e refl
      | inr (p, e) ↦ rw (e, h) refl
    ]
