-- ===== src/Lib.antt =====
-- depCustoms: a proxy in front of package registries asks the API service whether a package version
-- may be served, and the service decides by the policies of the project. This library models the
-- part of the API service (services/api/src) that makes the decision and that guards the way to it.
--
-- A check (connect/check-service.ts, `handleCheck`) looks the project token up, tests the ecosystem
-- against the tenant's plan, loads the rules in force for the project, collects the answers of the
-- connectors as a flat map of fields, and evaluates the rules on it. Project tokens are made, rotated
-- and revoked by users, whom the roles and memberships of the tenant allow it; so are members and
-- proxies. A proxy exchanges its secret for a token of its own, which it shows with every check.
--
-- The modules, with the code that they are about (paths below services/api/src):
--   Prelude            names of the libraries, tests on numbers, lists, texts and sorting
--   Policy.Value       JSON values with JavaScript's equality, order and text conversions, which
--                      policy/expression.ts uses; a float and its primitives are the parameter JsNumber
--   Policy.Expression  policy/expression.ts: `evaluate_condition` is evaluateCondition,
--                      `evaluate_condition_with_trace` evaluateConditionWithTrace, and
--                      Policy.Expression.Template has renderTemplate
--   Policy.Resolver    policy/resolver.ts: `resolve_fields` is resolveFields
--   Policy.Rules       the rules of policy/effective.ts, and a stored JSON value read as a condition
--   Policy.Tables      the rows of db/schema/policies.ts that are read, and the snapshot returned
--   Policy.Overrides   policy/effective.ts: resolveEnforcementMode, getRuleOverride, and the rule that
--                      the overrides of a binding make
--   Policy.Effective   policy/effective.ts: `load_effective_policy` is loadEffectivePolicy, with one
--                      function for each query and each step of its loop
--   Policy.Decision    evaluatePolicyDecision of connect/check-service.ts: `run_rules` is its loop,
--                      `Progress` the variables of the loop, `finish` what follows it;
--                      Outcome is the decision without the loop
--   Policy.Versioning  features/policies/versioning.ts: `create_next_policy_version` is
--                      createNextPolicyVersion
--   Access             middleware/rbac.ts: roles, capabilities, invitations, access to projects
--   Packages           features/packages/identity.ts and artifact-identity.ts
--   Tokens             features/tokens/service.ts and routes.ts, and the token lookup of the check
--   Sse                sse/subscription-manager.ts
--   Contributor        connectors/contributor/scorer.ts
--   Connectors         connectors/types.ts and cache.ts: `upsert_cached_result` is upsertCachedResult,
--                      `find_fresh_cache_row` findFreshCacheRow; the check does not use this model,
--                      since what is stored when the connectors have answered is its parameter
--   Connectors.Osv     connectors/osv/parse.ts: `parse_osv_response` is parseOsvResponse, with
--                      Vectors (CVSS texts), Cvss (scores and severities), Fixes (fix versions) and
--                      Parse (an advisory and the answer)
--   Tenants            features/tenants/member-routes.ts and invite-routes.ts: Guards has http/guards.ts,
--                      Users the paging of auth/admin-service.ts, Rows the tables and their indices,
--                      Members `create_member` and `patch_member_role`, Grants `grant_tenant_access`,
--                      Passwords `reset_password`; Requests joins the three that change the tables,
--                      and Effects is what such a request may do to them
--   Proxies            features/proxies and features/internal-proxy-auth, with connect/proxy-auth.ts and
--                      auth/proxy-jwt.ts: `handle_proxy_request` is the handlers of routes.ts,
--                      `exchange_proxy_runtime_token` exchangeProxyRuntimeToken, Auth the test of a
--                      secret, Jwt auth/internal-service-jwt.ts
--   Check              handleCheck and what it calls, joined from the modules above
--
-- How the code is modelled. A table is a list of rows, an operation takes it and returns the new
-- one; `limit(1)` takes the first row, `orderBy` is a stable sort. What raises a TypeError is the
-- value `type_error` of Eval; an answer with an error is a value of HttpResult. A transaction is a
-- function to Option: it fails on a conflict with a unique index, or when the database does not
-- commit, and leaves the tables. Scores of CVSS are NaN, or decimals without rounding errors: a
-- whole number in the units that the weights of the formula make. Functions that such a table finds
-- are left out of the attributes of a finding, as JSON leaves them out. Times are
-- milliseconds, and one reading of the clock serves a whole request. Priorities, order indices and
-- times to live, which the schema keeps as integers, are natural numbers. Objects are lists of
-- their own members, without those of a prototype, but for two places: the tables of CVSS metrics
-- find the members of Object.prototype, and an own member `toString` hides the inherited one. Texts are lists of characters; `<` on texts
-- compares UTF-16 code units as JavaScript does. Loops are recursion on lists. The scan of
-- renderTemplate takes fuel, one more than the text has characters, and Policy.Expression.Template.Laws
-- shows that more fuel makes no difference. The loop over the pages of the auth service takes rounds,
-- of which one more than there are users is enough.
--
-- Parameters: the primitives of floats (JsNumber), SHA-256, `toLowerCase`, random tokens and ids, the
-- clock, and in a check the connectors that support the request, the snapshots that are stored when
-- they have answered and the release dates of the package; for the OSV answers the comparison of
-- semver, the dates and the number of a decimal; for the tenants the tests of UUIDs and emails, the
-- replies of the auth service and whether the database commits; for the tokens of proxies the library
-- that signs and verifies them. The unique indices on the token hash and
-- on row ids are hypotheses where they are needed.
--
-- Not modelled: the calls of connectors, the insertion of events and
-- evaluations, logs and timings, the other routes and read models, the proxy (Go), the intelligence
-- service (Python) and the dashboard.
pub mod Prelude
pub mod Policy
pub mod Access
pub mod Tokens
pub mod Sse
pub mod Packages
pub mod Contributor
pub mod Connectors
pub mod Check
pub mod Proxies
pub mod Tenants
