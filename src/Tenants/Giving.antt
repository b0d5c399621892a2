-- ===== src/Tenants/Giving.antt =====
-- Which roles the checks of features/tenants let a caller give.
use dep_customs.Prelude.{
  String, ◌≡◌, ◌≢◌, refl, sym, ap, subst, ◌∙◌, Bool, true, false, not, ◌&&◌, none, some, inl, inr,
  arith, str_eq, eq_iff, Option-cases,
}
use dep_customs.Access.{
  Role, owner, admin, demo, member, guest, tenant_role, can_perform, no_context,
  can_invite_tenant_role, can_direct_create_tenant_role, CapabilityContext, role_capabilities,
  allowed_in, same_role,
}
use dep_customs.Access.Order.{
  AtMost, guest_member, guest_demo, member_admin, demo_admin, admin_owner, same, step,
}
use dep_customs.Access.Invites.{can_invite_tenant_role-AtMost, can_invite_tenant_role-may_invite}
use dep_customs.Access.Projects.{ErrorResponse, HttpResult, ok_result, error_result}
use dep_customs.Tenants.Guards.{
  ◌>>=◌, Caller, require, require_tenant_param_access, has_tenant_capability, validate_uuid_param,
}
use dep_customs.Tenants.Members.{related, role_test, is_manageable_tenant_role}

-- a role that the caller may give: none above his own, and not the owner's
pub record MayGive (caller : Caller) (role : String) : Type 0 where
  pub own : Role
  pub given : Role
  pub own_role : tenant_role caller.role ≡ some own
  pub given_role : tenant_role role ≡ some given
  pub at_most : AtMost given own
  pub not_owner : role ≢ "owner"

pub bind_ok :
    {A B : Type 0} (m : HttpResult A) (f : A → HttpResult B) (b : B)
    → (m >>= f) ≡ ok_result b
    → (a : A) × (m ≡ ok_result a) × (f a ≡ ok_result b)
bind_ok (ok_result a) f b h = (a, refl, h)
bind_ok (error_result e) f b h = cc

pub require_ok :
    (b : Bool) (e : ErrorResponse) (x : Unit {0}) → require b e ≡ ok_result x → b ≡ true
require_ok true e x h = refl
require_ok false e x h = cc

pub require_tenant_param_access-own :
    (is_uuid : String → Bool) (caller : Caller) (tenant_id t : String)
    → require_tenant_param_access is_uuid caller tenant_id ≡ ok_result t
    → t ≡ caller.tenant_id
unfolding require_tenant_param_access
require_tenant_param_access-own is_uuid caller tenant_id t h =
    let (a, _, k) = bind_ok (validate_uuid_param is_uuid tenant_id "Tenant ID") _ t h in
    let (x, r, q) = bind_ok (require (str_eq a caller.tenant_id) _) _ t k in
    let e : a ≡ t = cc q in
    sym e ∙ (eq_iff a caller.tenant_id).0 (require_ok (str_eq a caller.tenant_id) _ x r)

role_test-role :
    (p : Role → Bool) (s : String)
    → role_test p s ≡ true
    → (r : Role) × (tenant_role s ≡ some r) × (p r ≡ true)
role_test-role p s h = elim (Option-cases (tenant_role s)) [
  | inl e ↦ let k : false ≡ true = rw (e, role_test) at h in cc k
  | inr (r, e) ↦ (r, e, (rw (e, role_test) at h))
]

related-roles :
    (test : Role → Role → Bool) (actor target : String)
    → related test actor target ≡ true
    → (a : Role) × (t : Role) × (tenant_role actor ≡ some a)
      × (tenant_role target ≡ some t)
      × (test a t ≡ true)
related-roles test actor target h =
    let (a, e, k) = role_test-role (λ a. role_test (test a) target) actor h in
    let (t, f, q) = role_test-role (test a) target k in (a, t, e, f, q)

capability-role :
    (caller : Caller) (capability : String)
    → has_tenant_capability caller capability ≡ true
    → (r : Role) × (context : CapabilityContext) × (tenant_role caller.role ≡ some r)
      × (can_perform r capability context ≡ true)
unfolding has_tenant_capability
capability-role caller capability h =
    let context : CapabilityContext = record {
      has_project_access = none;
      tenant_kind = caller.tenant_kind;
      owns_token = none;
    } in
    let (r, e, k) = role_test-role (λ r. can_perform r capability context) caller.role h in
    (r, context, e, k)

AtMost-owner : (r : Role) → AtMost r owner
AtMost-owner owner = same owner
AtMost-owner admin = admin_owner
AtMost-owner demo = step demo admin owner demo_admin admin_owner
AtMost-owner member = step member admin owner member_admin admin_owner
AtMost-owner guest = step guest demo owner guest_demo (step demo admin owner demo_admin admin_owner)

not_owner_of : (s : String) (r : Role) → tenant_role s ≡ some r → r ≢ owner → s ≢ "owner"
unfolding tenant_role
not_owner_of s r e ne q =
    let k : tenant_role "owner" ≡ some r = subst (λ s. tenant_role s ≡ some r) q e in ne (cc k)

owner_only :
    (a t : Role) → (same_role a owner && not (same_role t owner)) ≡ true → (a ≡ owner) × (t ≢ owner)
owner_only owner owner k = cc k
owner_only owner admin k = (refl, (λ q. cc q))
owner_only owner demo k = (refl, (λ q. cc q))
owner_only owner member k = (refl, (λ q. cc q))
owner_only owner guest k = (refl, (λ q. cc q))
owner_only admin t k = cc k
owner_only demo t k = cc k
owner_only member t k = cc k
owner_only guest t k = cc k

pub create_gives :
    (caller : Caller) (role : String)
    → related can_direct_create_tenant_role caller.role role ≡ true
    → MayGive caller role
create_gives caller role h =
    let (a, t, e, f, k) = related-roles can_direct_create_tenant_role caller.role role h in
    let (is_owner, ne) = owner_only a t (sym ((can_invite_tenant_role-may_invite a t).1) ∙ k) in
    record {
      own = a;
      given = t;
      own_role = e;
      given_role = f;
      at_most = subst (AtMost t) (sym is_owner) (AtMost-owner t);
      not_owner = not_owner_of role t f ne;
    }

-- the capability to invite does not depend on the context
invite_context :
    (r : Role) (context : CapabilityContext)
    → can_perform r "members.invite" context ≡ true
    → can_perform r "members.invite" no_context ≡ true
unfolding can_perform allowed_in
invite_context r context h = h

not_invited_owner : (a t : Role) → can_invite_tenant_role a t ≡ true → t ≢ owner
not_invited_owner a t h q =
    let k = subst (λ t. can_invite_tenant_role a t ≡ true) q h in
    let e : can_invite_tenant_role a owner ≡ false =
      (can_invite_tenant_role-may_invite a owner).0 in
    cc (k, e)

pub grant_gives :
    (caller : Caller) (role : String)
    → has_tenant_capability caller "members.invite" ≡ true
    → related can_invite_tenant_role caller.role role ≡ true
    → MayGive caller role
grant_gives caller role c h =
    let (r, context, e', p) = capability-role caller "members.invite" c in
    let (a, t, e, f, k) = related-roles can_invite_tenant_role caller.role role h in
    let same_own : r ≡ a = cc (e', e) in
    let may =
      subst (λ r. can_perform r "members.invite" no_context ≡ true) same_own
        (invite_context r context p) in
    record {
      own = a;
      given = t;
      own_role = e;
      given_role = f;
      at_most = can_invite_tenant_role-AtMost a t may k;
      not_owner = not_owner_of role t f (not_invited_owner a t k);
    }

writer_above :
    (r t : Role) (context : CapabilityContext)
    → can_perform r "members.write_roles" context ≡ true
    → t ≢ owner
    → AtMost t r
unfolding can_perform role_capabilities allowed_in
writer_above owner t context h ne = AtMost-owner t
writer_above admin owner context h ne = absurd (ne refl)
writer_above admin admin context h ne = same admin
writer_above admin demo context h ne = demo_admin
writer_above admin member context h ne = member_admin
writer_above admin guest context h ne = step guest member admin guest_member member_admin
writer_above demo t context h ne = cc h
writer_above member t context h ne = cc h
writer_above guest t context h ne = cc h

owner_text : (s : String) → tenant_role s ≡ some owner → str_eq s "owner" ≡ true
unfolding tenant_role
owner_text s h = ground arith

pub write_gives :
    (caller : Caller) (role : String)
    → has_tenant_capability caller "members.write_roles" ≡ true
    → is_manageable_tenant_role role ≡ true
    → MayGive caller role
unfolding is_manageable_tenant_role
write_gives caller role c h =
    let (r, context, e, p) = capability-role caller "members.write_roles" c in
    elim (Option-cases (tenant_role role)) [
      | inl f ↦ let k : false ≡ true = rw f at h in cc k
      | inr (t, f) ↦
          let k : not (str_eq role "owner") ≡ true = rw f at h in
          let ne : t ≢ owner = λ q.
            let o = owner_text role (f ∙ ap some q) in let z : false ≡ true = rw o at k in cc z in
          record {
            own = r;
            given = t;
            own_role = e;
            given_role = f;
            at_most = writer_above r t context p ne;
            not_owner = not_owner_of role t f ne;
          }
    ]
