-- ===== src/Lib.antt =====
-- A verification library for the platform's control plane, its public API and the packages and
-- services that both use.
--
-- The program. The control API (apps/platform-control-api) keeps the desired state of the platform,
-- change requests with their approvals, pages and an audit trail, and lets operators change them.
-- It asks the configuration engine (packages/config-engine), the dependency engine
-- (packages/dependency-engine) and the policy engine (packages/policy-engine) whether a state or a
-- switch is allowed. The public API (apps/api) limits the rate of requests and answers repeated
-- ones alike. The services (services/*) check permissions by packages/security, write to their
-- repositories and enqueue jobs.
--
-- Files and sources.
--   Base/*            shared helpers: results, maps in insertion order, JSON values, code points
--   Security/Context  packages/security/src/tenant-context.ts and authorization.ts
--   Security/Scoped   packages/security/src/tenant-scoped-ports.ts, with the keys of tenant-context.ts; Ports
--                     holds the calls of packages/capability-contracts/src/index.ts, Separation and Tenants
--                     are about the calls of one and of two tenants
--   Security/Governance  packages/security/src/control-governance.ts
--   Sdk/Registry      packages/platform-sdk/src/provider-registry.ts
--   Sdk/Capability    CapabilityContainer of packages/platform-sdk/src/capability-container.ts
--   Sdk/Cache         MemoryCacheAdapter of packages/platform-sdk/src/fallbacks.ts
--   Sdk/Resilience    packages/platform-sdk/src/resilience.ts; Attempts is about retries, Circuit about the
--                     breaker, Handover about the bulkhead
--   Config/Validate   packages/config-engine/src/validate.ts; Spec and Valid say which states pass
--   Config/Locked     packages/config-engine/src/validate-all.ts and assertLockedState of the policy
--                     engine
--   Config/Workflows  packages/config-engine/src/workflows.ts; Control/Preview is its handler
--   Config/Dependency packages/dependency-engine/src/index.ts; Sound relates it to validation
--   Policy            packages/policy-engine/src/index.ts
--   Api/RateLimit     apps/api/src/rate-limit.ts, the limiter in memory; Bounds, Burst
--   Api/Idempotency   apps/api/src/idempotency.ts and POST /v1/resources of apps/api/src/server.ts
--   Api/Requests      the request hook and the error handler of apps/api/src/server.ts
--   Services/*        services/workflow, reporting, integration, tenant, notification, audit, identity;
--                     Ports holds the repositories and the queue
--   Operations        services/operations/src/aws-operations-collector.ts: Sources and Metrics read one AWS
--                     service each, Posture is about the security summary
--   Services/Upload   services/document/src/upload-security.ts; Zip inspects archives, Approval says what an
--                     approved document has passed
--   Control/Machine   apps/platform-control-api/src/change-machine.ts; Trail, History, Completion
--   Control/Store, Control/Pages   apps/platform-control-api/src/store.ts, the store in memory
--   Control/Postgres  PostgresControlStore of the same file: the SQL texts that it sends and what it makes
--                     of the rows
--   Control/Secrets   apps/platform-control-api/src/secret-metadata.ts
--   Control/Plane     apps/platform-control-api/src/section19, the second change service: Routes are its
--                     routes, Moves and Oversight a single move, Stages and Requests what they can do to a change
--   Control/Access    apps/platform-control-api/src/auth.ts, the request hook and two readers of server.ts
--   Control/Overview  the readers of pages in apps/platform-control-api/src/server.ts
--   Control/Reply, Control/Api/*   the handlers of apps/platform-control-api/src/server.ts. Changes and
--                     States hold what the handlers read, decide and write, Steps the interleavings of
--                     these, System and Production what holds in all of them
--
-- How the code is read. A handler is a function from the request and the store to the store and the
-- reply, or several such functions where it awaits the store between a read and a write or between
-- two writes; Steps lets any other request run between them, and does not say which store is used:
-- each call of one is a step, as it is in memory. The runs start from any store without changes,
-- since production does not start with the store in memory. The page handler's answer, which is
-- read again after its write, is read from what it wrote. Errors are values with their status and
-- code; the texts of messages are left out where nothing depends on them. The clock, random
-- identifiers, the encoders of a stored response and the runtime's lower case are arguments, and so
-- are the repositories and the queue of the services, the driver of the PostgreSQL store, what AWS
-- answers the collector, the ports that the tenant-scoped ones wrap, and the scanner of uploads.
-- The ratios of an archive are exact, where the source divides floating-point numbers. An
-- environment is any string, as it is read from the process environment. Values are immutable, so
-- structuredClone is the value itself. Limits, times and counts are natural numbers. A JSON number
-- that is not a natural one is kept by its text.
--
-- Bounds and fuel. The decimal text of a number n is made in at most n + 1 rounds, which are
-- enough, as n has no more digits. No other function is given fuel: all others recurse on their
-- argument, the retries on the attempts that are left and the ZIP inspection on the bytes.
--
-- Not modelled: what SQL statements do in a database; the adapters, which send statements and
-- commands to servers; the verification of tokens, which a library does; the framework's routing
-- and JSON schemas; the AWS collector's costs and the arguments of its commands; the web and admin
-- applications, the workers and their wiring; the remaining modules of the security package and of
-- the platform SDK, and the merge of configuration layers.
pub mod Base
pub mod Security
pub mod Config
pub mod Policy
pub mod Api
pub mod Sdk
pub mod Services
pub mod Operations
pub mod Control
