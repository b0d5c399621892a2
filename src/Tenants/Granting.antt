-- ===== src/Tenants/Granting.antt =====
-- What a grant of access leaves, and what its answer says.
use dep_customs.Prelude.{
  String, ◌≡◌, ◌≢◌, ◌⊎◌, refl, Bool, true, List, [], ◌∷◌, ◌++◌, Option, none, some, inl, inr, arith,
  any, find, Bool-cases, Option-cases,
}
use dep_customs.Access.Projects.{ProjectMemberRow}
use dep_customs.Tenants.Users.{AuthAdminUser, Reply, replied}
use dep_customs.Tenants.Rows.{
  MembershipRow, TenantTables, answered, Handled, is_membership, is_project_user,
  insert_project_member, record_member,
}
use dep_customs.Tenants.Grants.{
  InviteMemberBody, AccessGrant, add_project_member, project_added, grant_to_member, grant_to_user,
  is_confirmed, grant_to_invited, granted,
}
use dep_customs.Tenants.Cleanup.{
  HasAccess, is_project_member, added_project_member, record_member-HasAccess,
}

-- The answer tells of success and the user has the access, or it does not, the tables stay and a
-- deletion of a user who is confirmed is not asked for.
abbrev pub IsDone :
    AuthAdminUser
    → (tenant_id : String) → Option String
    → TenantTables
    → Handled AccessGrant
    → Type 0
IsDone user tenant_id scoped t h =
    ((a : AccessGrant) × (h.answer ≡ answered a)
      × (h.delete_requests ≡ [])
      × HasAccess user.id tenant_id scoped h.tables)
    ⊎ (((a : AccessGrant) → h.answer ≢ answered a)
        × (h.tables ≡ t)
        × (is_confirmed user ≡ true → h.delete_requests ≡ []))

find-any : {A : Type 0} (p : A → Bool) (x : A) (xs : List A) → find p xs ≡ some x → any p xs ≡ true
find-any p x [] h = cc h
find-any p x (y ∷ ys) h = ground (arith, h, find-any p x ys)

add_project_member-is_member :
    (user_id tenant_id project_id : String) (rows : List ProjectMemberRow)
    → is_project_member user_id tenant_id project_id
        (project_added user_id tenant_id (some project_id) rows).0
      ≡ true
unfolding add_project_member project_added insert_project_member
add_project_member-is_member user_id tenant_id project_id rows =
    let row : ProjectMemberRow = record {
      project_id = project_id;
      tenant_id = tenant_id;
      user_id = user_id;
    } in
    elim (Bool-cases (any (is_project_user row) rows)) [
      | inl e ↦ rw (e, add_project_member) e
      | inr e ↦
          rw (e, add_project_member) (added_project_member row rows (rows ++ row ∷ []) (rw e refl))
    ]

module _ (tenant_id : String) (body : InviteMemberBody) where
  grant_to_member-IsDone :
      (scoped : Option String) (user : AuthAdminUser) (existing : MembershipRow) (t : TenantTables)
      → find (is_membership user.id tenant_id) t.memberships ≡ some existing
      → IsDone user tenant_id scoped t (grant_to_member tenant_id scoped body user.id existing t)
  unfolding grant_to_member
  grant_to_member-IsDone none user existing t f =
      inl (_, refl, refl, find-any (is_membership user.id tenant_id) existing t.memberships f)
  grant_to_member-IsDone (some p) user existing t f = inl (
    _,
    refl,
    refl,
    (
      find-any (is_membership user.id tenant_id) existing t.memberships f,
      add_project_member-is_member user.id tenant_id p t.project_members,
    ),
  )

  module _ (scoped : Option String) (commits : Bool) where
    grant_to_user-IsDone :
        (user : AuthAdminUser) (t : TenantTables)
        → IsDone user tenant_id scoped t (grant_to_user commits tenant_id scoped body user.id t)
    unfolding grant_to_user
    grant_to_user-IsDone user t =
        elim (Option-cases (record_member commits user.id tenant_id body.role scoped t)) [
          | inl e ↦ rw (e, grant_to_user) (inr ((λ a q. cc q), refl, (λ _. refl)))
          | inr (next, e) ↦
              rw (e, grant_to_user)
                (inl (
                  _,
                  refl,
                  refl,
                  record_member-HasAccess commits user.id tenant_id body.role scoped t next e,
                ))
        ]

    grant_to_invited-IsDone :
        (user : AuthAdminUser) (t : TenantTables)
        → IsDone user tenant_id scoped t
            (grant_to_invited commits tenant_id scoped body (replied user) t)
    unfolding grant_to_invited
    grant_to_invited-IsDone user t =
        elim (Option-cases (record_member commits user.id tenant_id body.role scoped t)) [
          | inl e ↦ rw (e, grant_to_invited) (inr ((λ a q. cc q), refl, (λ c. rw c refl)))
          | inr (next, e) ↦
              rw (e, grant_to_invited)
                (inl (
                  _,
                  refl,
                  refl,
                  record_member-HasAccess commits user.id tenant_id body.role scoped t next e,
                ))
        ]

    -- A grant of access to a user whom the auth service finds by email, or else invites: either it
    -- succeeds, no user is to be deleted, and the user is a member of the tenant and of the project
    -- that the role is scoped to, if there is one, or it does not, the tables are as they were, and
    -- the auth service is not asked to delete a user who has confirmed an email.
    pub granted-IsDone :
        (find_user : Reply (Option AuthAdminUser)) (invite_user : Reply AuthAdminUser)
        (user : AuthAdminUser) (t : TenantTables)
        → (find_user ≡ replied (some user))
          ⊎ ((find_user ≡ replied none) × (invite_user ≡ replied user))
        → IsDone user tenant_id scoped t
            (granted commits tenant_id scoped body find_user invite_user t)
    unfolding granted
    granted-IsDone find_user invite_user user t (inr (e, k)) =
        rw (e, k) (grant_to_invited-IsDone user t)
    granted-IsDone find_user invite_user user t (inl e) =
        elim (Option-cases (find (is_membership user.id tenant_id) t.memberships)) [
          | inl f ↦ rw (e, f, granted) (grant_to_user-IsDone user t)
          | inr (existing, f) ↦ rw (e, f, granted) (grant_to_member-IsDone scoped user existing t f)
        ]
