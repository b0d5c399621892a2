-- ===== src/Tenants.antt =====
-- features/tenants, with http/guards.ts: the caller of a request, the memberships, and what the
-- handlers have in common.
pub mod Guards
pub mod Users
pub mod Rows
pub mod Members
pub mod Grants
pub mod Passwords
pub mod Giving
pub mod Effects
pub mod Permits
pub mod Handlers
pub mod Requests
pub mod Ownership
pub mod Escalation
pub mod Cleanup
pub mod Granting
pub mod Tests
