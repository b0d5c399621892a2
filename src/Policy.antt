-- ===== src/Policy.antt =====
-- The policy engine of the API service: services/api/src/policy and the decision of
-- services/api/src/connect/check-service.ts.
pub mod Value
pub mod Expression
pub mod Resolver
pub mod Rules
pub mod Tables
pub mod Overrides
pub mod Effective
pub mod Versioning
pub mod Decision
