-- ===== src/Tenants/Rows.antt =====
-- The rows of memberships and project_members, their unique indices, and the answers of handlers.
use dep_customs.Prelude.{
  String, Bool, ◌&&◌, List, [], ◌∷◌, ◌++◌, Option, none, some, str_eq, any, if◌then◌else◌,
}
use dep_customs.Access.{has_implicit_project_access}
use dep_customs.Access.Projects.{ProjectMemberRow, ErrorResponse}

pub record MembershipRow : Type 0 where
  pub user_id : String
  pub tenant_id : String
  pub role : String

pub record TenantTables : Type 0 where
  pub memberships : List MembershipRow
  pub project_members : List ProjectMemberRow

-- `rejected` is the answer to a body that the schema does not take, `crashed` the one to an error
-- that the handler does not catch.
pub data Answer (A : Type 0) : Type 0 where
  answered : A → Answer A
  refused : ErrorResponse → Answer A
  rejected crashed : Answer A

-- the tables after a request, the users that it asks the auth service to delete again, a failure of
-- which the handler ignores, and the answer
pub record Handled (A : Type 0) : Type 0 where
  pub tables : TenantTables
  pub delete_requests : List String
  pub answer : Answer A

abbrev pub untouched : {A : Type 0} → TenantTables → Answer A → Handled A
untouched tables answer = record { tables = tables; delete_requests = []; answer = answer }

unfoldable pub is_membership : (user_id tenant_id : String) → MembershipRow → Bool
is_membership user_id tenant_id m = str_eq m.user_id user_id && str_eq m.tenant_id tenant_id

-- an insertion, none on a conflict with the unique index on tenant and user
unfoldable pub insert_membership : MembershipRow → List MembershipRow → Option (List MembershipRow)
insert_membership row rows =
    if any (is_membership row.user_id row.tenant_id) rows then none else some (rows ++ row ∷ [])

abbrev pub is_project_user : ProjectMemberRow → ProjectMemberRow → Bool
is_project_user row m = str_eq m.project_id row.project_id && str_eq m.user_id row.user_id

-- the same with the index on project and user
unfoldable pub insert_project_member :
    ProjectMemberRow → List ProjectMemberRow → Option (List ProjectMemberRow)
insert_project_member row rows =
    if any (is_project_user row) rows then none else some (rows ++ row ∷ [])

-- the project that a role needs to be scoped to
unfoldable pub scoped_project_id : (role : String) → Option String → Option String
scoped_project_id role project_id = if has_implicit_project_access role then none else project_id

abbrev pub with_project_member :
    (user_id tenant_id : String)
    → Option String
    → List MembershipRow
    → List ProjectMemberRow
    → Option TenantTables
with_project_member user_id tenant_id none memberships rows =
    some (record { memberships = memberships; project_members = rows })
with_project_member user_id tenant_id (some project_id) memberships rows =
    elim (insert_project_member
      (record { project_id = project_id; tenant_id = tenant_id; user_id = user_id }) rows) [
        | none ↦ none
        | some rows' ↦ some (record { memberships = memberships; project_members = rows' })
      ]

-- The transaction that records a member: all of it or none. The database may fail for a reason of
-- its own, and then it does not commit.
unfoldable pub record_member :
    (commits : Bool)
    → (user_id tenant_id role : String) → (scoped : Option String) → TenantTables
    → Option TenantTables
record_member commits user_id tenant_id role scoped tables =
    elim (insert_membership (record { user_id = user_id; tenant_id = tenant_id; role = role })
      tables.memberships) [
        | none ↦ none
        | some memberships ↦
            if commits
            then with_project_member user_id tenant_id scoped memberships tables.project_members
            else none
      ]
