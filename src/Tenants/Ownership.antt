-- ===== src/Tenants/Ownership.antt =====
-- Owners stay owners, and a user has one membership in a tenant.
use dep_customs.Prelude.{◌≡◌, Bool, false, List, [], ◌∷◌, str_eq, any, filter}
use dep_customs.Tenants.Rows.{MembershipRow, TenantTables, is_membership}

abbrev pub is_owner_row : MembershipRow → Bool
is_owner_row m = str_eq m.role "owner"

abbrev pub owners_of : TenantTables → List MembershipRow
owners_of t = filter is_owner_row t.memberships

-- The unique index on tenant and user holds.
abbrev pub AreUnique : List MembershipRow → Type 0
AreUnique [] = Unit
AreUnique (m ∷ ms) = (any (is_membership m.user_id m.tenant_id) ms ≡ false) × AreUnique ms
