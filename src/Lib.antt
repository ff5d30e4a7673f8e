-- ===== src/Lib.antt =====
-- A verification library for the backend of redbox.
--
-- redbox is a NestJS API over MariaDB (Prisma), Redis and S3 storage. Modelled here:
-- - RateLimit: apps/backend/src/common/rate-limit/rate-limit.service.ts. Fixed windows
--   (`consume`, `consume_attempt`, `assert_available`, `clear_attempts`) and slots of event
--   streams (`acquire_concurrent_keys`, `release_concurrent_keys`) over Redis counters; `Sse` has
--   trackConcurrentSse, whose acquisition and teardown may happen in either order.
-- - Guards: apps/backend/src/common/rate-limit/rate-limit.guard.ts (`Rules`, proofs in `Attempts`),
--   which asks ClientIp and Mail for a request's subject and RateLimit for its count, and
--   apps/backend/src/files/upload-chunk-concurrency.guard.ts (`ChunkLock`, proofs in `Exclusion`).
-- - ClientIp: apps/backend/src/common/http/client-ip.ts. The address of a client behind trusted
--   proxies, and the audit context.
-- - Files: apps/backend/src/files/files.service.ts. `Limits` has the sizes and quotas, `State` the
--   records and the state, `Steps` the small private methods, `Active` the set of active uploads,
--   `Upload` initializeUpload, `Chunks` handleChunk, finalizeUpload and cancelUpload; the proofs
--   are in `Reads`, `Quota`, `Apart`, `Started`, `Progress`, `Whole` and `Cancel`.
--   `Downloads` has downloads, deletion and the hourly cleanup, with the proof in `Cleanup`.
-- - Accounts: apps/backend/src/users/users.service.ts (`Users` the private methods, `Lifecycle` the
--   public ones and the cron jobs), apps/backend/src/auth/auth.service.ts (`Secrets` the master key
--   and the tokens, `Auth` preValidate, login and register, `Credentials` the other operations)
--   and `validate` of apps/backend/src/auth/strategy/jwt.strategy.ts (in `Credentials`). `State`
--   has the rows of apps/backend/prisma/schema.prisma and the state; the proofs are in `Rows`,
--   `Sessions`, `Tokens`, `Rotation`, `Revocation`, `Recovery`, `Deletion` and `Registration`.
--   Files reads the master key that a login leaves in Redis.
--   apps/backend/src/admin/users/admin-users.service.ts is in `AdminContent` (what belongs to a
--   user, and its deletion) and `AdminUsers` (status, sessions and names); the proofs on content
--   are in `Cleared`. `Machine` is an abstract machine of a user's status and session key over the
--   session keys that an operation sets; `Steps` has the operations as one step relation, of which
--   `Refinement`, `Operations`, `Requests`, `AuthSteps`, `CredentialSteps`, `AdminSteps` and
--   `AdminRuns` show operation by operation that the machine allows it.
-- - Sharing: apps/backend/src/links/links.service.ts (`Links`, proofs in `Codes`) and
--   apps/backend/src/bins/bins.service.ts (`Bins`, proofs in `Gate` and `Lockout`). The password
--   gate of a bin calls the operations of RateLimit.
-- - Mail: apps/backend/src/mail/mail.service.ts and
--   apps/backend/src/common/mail/admin-mail-aliases.ts. `Addresses` has the regular expressions and
--   `Aliases` the functions on addresses, `State` the rows and the state, `Mailbox` storing and
--   deleting, `Reading` and `Listing` the queries, `Actions` and `Senders` what users do, `Incoming`
--   mail from outside. The proofs are in `Storing`, `RoundTrip`, `Quota` and `Folders`; `Owners`,
--   `Isolation` and `SenderSteps` lead to `Steps`, the users' operations as a step relation. Reading
--   a mail takes the master key that a login leaves in Redis, and the users are those of Accounts.
--
-- A method is a function from the state to a result and the next state (`Prelude.Effects.Exec`):
-- what it wrote before it threw stays written. Redis, Prisma, S3 and date-fns are records of calls
-- with their documented behaviour (`Redis`, `Database`, `Storage`, `Dates`), which every model
-- takes as a parameter; `Redis.Memory`, `Redis.Scan`, `Database.Memory`, `Storage.Memory` and
-- `Storage.Objects` have values of them, used by the witnesses in `Tests`. Node's crypto,
-- bcryptjs, JwtService and mailparser are parameters too. Redis and Prisma calls do not fail, but
-- for the unique indexes on user names and short codes, and keys do not expire within a call;
-- storage calls may fail. What the source draws (the time, random bytes, uuids) is an argument.
-- The database's collation ignores case: where a query compares names or codes, the comparison
-- (`same_text`) and `like` are parameters. Ids, tokens, addresses and keys are compared exactly.
-- Names from the source are in snake case. No function runs on fuel: every loop is over a list,
-- or over the eight attempts of `create_link`.
--
-- Not modelled: notifications, reports, the blog and the rest of the administration, which work on
-- state of their own or only call the services above; controllers, modules, validation decorators
-- and logging, which have no logic of their own; the frontend.
pub mod Prelude
pub mod Redis
pub mod RateLimit
pub mod ClientIp
pub mod Database
pub mod Storage
pub mod Dates
pub mod Files
pub mod Accounts
pub mod Sharing
pub mod Mail
pub mod Guards
mod Tests
