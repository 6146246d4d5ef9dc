-- ===== src/Lib.antt =====
-- The user service: accounts in MySQL, sessions and one-time pads in redis, mails and text messages
-- that reset a password, and the HTTP handlers in front of them.
--
-- A call of the program is an action on a world: the stores, the clock, the source of ids and the
-- queues. The body of a function is a block in which an early return ends the function and keeps what
-- was written before it (Flow). Proofs follow a function on a view of the world by one rule for each
-- form of step (Flow.Spec).
--
-- The files, and the code that each is about:
--   Shared              shared/v1: the types, their methods, the errors and the interfaces; Shared.Client is
--                       `CheckValid`, by which another program asks for the state of a session
--   Config              internal/config: the configuration, its JSON, the URLs made of it, `NewSqls`
--   Metrics             internal/metrics/prometheus.go: the two counters and `NewHandler`; Metrics.Laws
--                       states what Prometheus does with labels, Metrics.Memory keeps what was counted
--   Redis               the interface `authn` of internal/validation/validator.go; Redis.Laws states
--                       what the commands do, Redis.Rules follows them, Redis.Memory is a server
--   Validation          internal/validation/validator.go: `core` with Login, Logout, Valid, OTP, LoginOTP,
--                       CompleteOTP, clearTokens, clearLogins and checkCount; a child for what each
--                       function ensures, Validation.History for sequences of calls and expiries,
--                       Validation.Lifecycle and Validation.Spent for calls that follow one another,
--                       Validation.Races for requests that interleave, Validation.Tracker for the
--                       tracker
--   Relational          internal/relational: `Conn` (conn.go), and a child for each of user.go, address.go,
--                       contact.go and basicauth.go; Relational.Scan is `Scan` into the structs,
--                       Relational.Logging is `logging`, and Relational.Logging.Methods the methods
--                       that use it on every return and call no other; the modules called Laws state
--                       what the statements do; Relational.Users.Directory is what user.go promises,
--                       without statements and rows
--   Router              internal/router: the request, the response and `UserService` (routes.go), with
--                       Users (user.go), Addresses (address.go), Contacts (contact.go), Passwords
--                       (basicauth.go), Sessions (validator.go) and Routes (routes.go);
--                       Router.Routes.Context is `wrapContext`; the modules called Statuses follow the
--                       status of every answer
--   Messaging           internal/messaging: maild/sender.go and smsd/sender.go, a channel of ten places and
--                       the goroutine that empties it, as steps in any order
--   System              internal/cmd/serve-mysql/main.go: how `main` puts the parts together; System.Main
--                       is `main` from its start to its end, System.Clients joins `CheckValid` to the
--                       handler that it calls; System.Memory is the table and the server in memory as one
--                       world
--   Prelude, Flow, Http shared names, control flow, status codes and cookies
--
-- The handlers call the database and the validator through the interfaces of shared/v1 and `Validator`,
-- which are records of operations; System fills them with the functions of Relational and Validation.
-- A Go name is kept in the spelling of this library: `CompleteOTP` is `complete_otp`, and a helper that
-- stands for a part of a function is named after it or after what it decides.
--
-- Parameters are the redis client, the database driver, `uuid.NewString`, the clock, encoding/json with
-- html.EscapeString and fmt (`Encoding`, `Marshal`), chi's URL parameters and patterns, the relay of
-- messages, Prometheus and the handler of /metrics, net/http's client (`Client`), and what `main` calls:
-- the environment, files and YAML, opening and pinging the stores, serving until a signal comes, and the
-- shutdown (`Platform`). Their laws are RedisLaws, AuthLaws, AddressLaws, ContactLaws, UserLaws,
-- PrometheusLaws, RegistrationLaws and PlatformLaws: what a command or a statement that succeeds does,
-- that one which fails was carried out or not, and that the server closes no sender. Of chi it is assumed
-- that a parameter which a route's pattern does not have is empty, and of the network, where `CheckValid`
-- meets the handler, that status, Set-Cookie and Location arrive as they were sent. The modules called
-- Memory and the tests meet them.
--
-- Assumptions and bounds. MAX_LOGINS is not negative, AUTHN_TIMEOUT is positive and its seconds fit
-- the machine's integers. Times are seconds. FailureCount wraps at 256. No key expires inside one
-- redis command; between calls any may. Where requests interleave, a request for a session or a pad
-- is one step up to the end of its count and one step that stores; every other call is one step.
-- Columns have the types that the driver declares. `AddUser` calls itself, on fuel: one more than
-- the number of inserts that were refused with "users.PRIMARY" is enough. The goroutine of a sender
-- is run on fuel too: one turn for each message that waits and one more.
--
-- Not modelled: log entries and durations, but for the entry that `wrapContext` shares; what the
-- handler of /metrics answers; reading the environment, which is envconfig's; the half second's
-- pause of `authnPad`; shared/v2, which passes the names of shared/v1 on.
pub mod Prelude
pub mod Flow
pub mod Redis
pub mod Http
pub mod Config
pub mod Metrics
pub mod Shared
pub mod Relational
pub mod Validation
pub mod Router
pub mod Messaging
pub mod System
