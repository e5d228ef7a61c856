-- ===== src/Lib.antt =====
-- DCVP, a platform for supervised programming examinations: a web application, an API server
-- (apps/api) and the types that both share (packages/shared). This library models the parts of
-- the server that decide who is let in, who administers and takes examinations, and who runs
-- code.
--
-- The parts and how they interact. A request to log in first passes the rate limiter, then the
-- authentication service, which checks the password (password-hash.ts, where the derivations of
-- all requests compete for a few slots) and stores a session in the session registry. Every later
-- request asks the registry for the session of its token. Operators and organization
-- administrators manage accounts and requests to join an organization within their scope. The
-- store keeps exams, candidates, proctoring and submissions, on the database or, where that is
-- not available, in the memory of the process; a candidate's call passes the gates of the
-- workspace and of the exam session before anything is stored. Submitted code is admitted by the
-- code runner, which runs it against its tests.
--
-- Which file models which part; paths are those of the repository:
--
--   * RateLimiter: apps/api/src/services/login-rate-limiter.ts. `consume`, `consumeBucket`,
--     `clientAddress` and `removeExpiredBuckets` are the definitions of those names in snake case;
--     the map of buckets is their state.
--   * Sessions: apps/api/src/services/auth-session-registry.ts. The map of sessions and the
--     pending timers of the runtime are a `Registry`; `get`, `set`, `delete`, `revokeUser`,
--     `store` and `expire` are functions on it.
--   * Kdf: the admission of password derivations in apps/api/src/services/password-hash.ts, whose
--     two module variables are a `Kdf`; arrivals, ends and time-outs are events.
--   * PasswordHash: the policy, the stored format and its verification in the same file.
--   * Auth: apps/api/src/services/auth.service.ts. Auth/Login holds the transaction of a login,
--     Auth/SignIn the whole of `login` with its retries, Auth/Account `me`,
--     `requireActiveSession`, `changePassword` and `logout`. `State` is the database and a
--     `Registry`.
--   * AdminUsers: apps/api/src/services/admin-users.service.ts.
--   * OrganizationRequests: apps/api/src/services/organization-requests.service.ts. A review is
--     its check and its transaction, in two steps.
--   * Invitations: apps/api/src/services/organization-invitations.service.ts, with the acceptance
--     in the same two steps.
--   * ProctorGateway: apps/api/src/modules/proctor.gateway.ts. The map of sockets by token is
--     `admin_clients` of a `Gateway`; a message is its room.
--   * CodeRunner: apps/api/src/services/code-runner.service.ts. The four fields of the service are
--     a `Runner`; CodeRunner/Judge holds `judgeAdmitted`.
--   * Database: apps/api/src/services/platform-store.database.ts. `try_database` runs an operation
--     on a `Connection`, the database with the flag of the service; the operation ends in an
--     `Outcome`.
--   * ExamAdmin: platform-store.exam-admin.ts in the same directory, on both stores.
--     ExamAdmin/Refinement holds the specification and the calls of the service,
--     ExamAdmin/Agreement what they do without a database. The body of an update is unchecked in
--     the source: `UpdateExamInput` has a place for every field of an exam.
--   * Store: the other platform-store files. Store/Content is exam-content, Store/CandidateAdmin
--     candidate-admin, Store/Portal candidate-portal, Store/Devices proctor, Store/Risk helpers,
--     Store/Workspace candidate-workspace and the gate of state, Store/Execution execution with its
--     access and scoring, Store/Results candidate-results, Store/Facade service. `Memory` is the
--     lists of state. A function takes what its run on the database ended in as an argument; the
--     facade has none, as where the memory stands in.
--   * Shared: packages/shared/src/index.ts. Common and JsMap hold what all parts use: tests,
--     lists, texts, exceptions as results, and the insertion-ordered map of the runtime.
--
-- How code becomes definitions. A method that changes state takes the state and returns the new
-- one with its answer, also where it throws; an exception is a value of `Result`. A reading of
-- the clock is an argument, once for each operation. Code outside the repository is a parameter:
-- the key derivation, digests and case tables of the runtime, the environment, the container that
-- runs a test, and the database, whose interfaces (`UserTable`, `AccountTable`, `RequestTables`,
-- `ExamTable`, `InvitationTables`) state as laws what the client documents of unique keys,
-- updates and deletions; each has an instance in the tests. Numbers of the source are whole and
-- not negative; where it subtracts times, the earlier from the later, the comment at the
-- definition says so. The one fraction, in the score of a submission, is computed with the
-- operations of `Numbers`, a parameter with laws of the floating-point standard.
--
-- Bounds and fuel. `retry_loop` has three rounds, as the source's loop. `dispatch_rounds` has one
-- round for each queued run: a round takes one run off the queue, and with an empty queue the
-- loop of the source stops. All other loops are by recursion on their lists.
--
-- Not modelled: controllers and modules of the framework, the web application, email, the AI
-- evaluation and the identity provider, which are glue, user interface or calls of outside
-- services; registration and the initial administrator, sign-up requests, identity and
-- environment checks as they are stored, and reports, which stand next to the parts above and use
-- them; the delivery of messages by the gateway and the lists of invitations; the seeding of an
-- empty database with a demonstration, which production skips; the conversion of database rows,
-- field by field.
pub mod Common
pub mod JsMap
pub mod RateLimiter
pub mod Shared
pub mod Sessions
pub mod Kdf
pub mod PasswordHash
pub mod Auth
pub mod AdminUsers
pub mod CodeRunner
pub mod OrganizationRequests
pub mod Database
pub mod ExamAdmin
pub mod Store
pub mod Invitations
pub mod ProctorGateway
