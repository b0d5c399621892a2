-- ===== src/Access/Invites.antt =====
-- Whom the roles of middleware/rbac.ts may invite or create.
use dep_customs.Prelude.{◌≡◌, refl, Bool, true, not, ◌&&◌, ◌||◌}
use dep_customs.Access.{
  Role, owner, admin, demo, member, guest, metadata, same_role, role_capabilities, no_context,
  allowed_in, can_perform, get_invitable_tenant_roles, can_invite_tenant_role,
  get_direct_creatable_tenant_roles, can_direct_create_tenant_role,
}
use dep_customs.Access.Order.{AtMost, guest_member, member_admin, admin_owner, same, step}

-- Cases on a role.
each_role : (P : Role → Type 0) → P owner → P admin → P demo → P member → P guest → (r : Role) → P r
each_role P o a d m g owner = o
each_role P o a d m g admin = a
each_role P o a d m g demo = d
each_role P o a d m g member = m
each_role P o a d m g guest = g

-- The role may invite another, as the table says.
abbrev pub may_invite : (actor_role target_role : Role) → Bool
may_invite actor_role target_role =
    (metadata target_role).invite_assignable
    && (not (same_role target_role admin) || (metadata actor_role).owner_level)

-- Members and guests can be invited, admins only by an owner or admin, owners and demo users by
-- nobody. Only an owner creates a user directly, in any role but the owner's.
pub can_invite_tenant_role-may_invite :
    (actor_role target_role : Role)
    → (can_invite_tenant_role actor_role target_role ≡ may_invite actor_role target_role)
      × (can_direct_create_tenant_role actor_role target_role
          ≡ (same_role actor_role owner && not (same_role target_role owner)))
unfolding can_invite_tenant_role can_direct_create_tenant_role get_invitable_tenant_roles
    get_direct_creatable_tenant_roles can_perform role_capabilities allowed_in
can_invite_tenant_role-may_invite =
    let row : (a : Role) → Type 0 = λ a.
      (t : Role)
      → (can_invite_tenant_role a t ≡ may_invite a t)
        × (can_direct_create_tenant_role a t ≡ (same_role a owner && not (same_role t owner))) in
    each_role row (each_role _ (refl, refl) (refl, refl) (refl, refl) (refl, refl) (refl, refl))
      (each_role _ (refl, refl) (refl, refl) (refl, refl) (refl, refl) (refl, refl))
      (each_role _ (refl, refl) (refl, refl) (refl, refl) (refl, refl) (refl, refl))
      (each_role _ (refl, refl) (refl, refl) (refl, refl) (refl, refl) (refl, refl))
      (each_role _ (refl, refl) (refl, refl) (refl, refl) (refl, refl) (refl, refl))

-- Someone who may invite at all invites into no role above his own, so that the invited user can do
-- nothing that he could not.
pub can_invite_tenant_role-AtMost :
    (actor_role target_role : Role)
    → can_perform actor_role "members.invite" no_context ≡ true
    → can_invite_tenant_role actor_role target_role ≡ true
    → AtMost target_role actor_role
unfolding can_invite_tenant_role get_invitable_tenant_roles can_perform role_capabilities allowed_in
can_invite_tenant_role-AtMost owner owner h k = same owner
can_invite_tenant_role-AtMost owner admin h k = admin_owner
can_invite_tenant_role-AtMost owner demo h k = cc
can_invite_tenant_role-AtMost owner member h k = step _ _ _ member_admin admin_owner
can_invite_tenant_role-AtMost owner guest h k =
    step _ _ _ guest_member (step _ _ _ member_admin admin_owner)
can_invite_tenant_role-AtMost admin owner h k = cc
can_invite_tenant_role-AtMost admin admin h k = same admin
can_invite_tenant_role-AtMost admin demo h k = cc
can_invite_tenant_role-AtMost admin member h k = member_admin
can_invite_tenant_role-AtMost admin guest h k = step _ _ _ guest_member member_admin
can_invite_tenant_role-AtMost demo _ h k = cc
can_invite_tenant_role-AtMost member owner h k = cc
can_invite_tenant_role-AtMost member admin h k = cc
can_invite_tenant_role-AtMost member demo h k = cc
can_invite_tenant_role-AtMost member member h k = same member
can_invite_tenant_role-AtMost member guest h k = guest_member
can_invite_tenant_role-AtMost guest _ h k = cc
