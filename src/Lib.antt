-- ===== src/Lib.antt =====
-- A verification library for the likes service: a Rust HTTP and gRPC service that stores likes in
-- Postgres, caches counts in Redis and in the process, and asks a content API and a profile API
-- about the things that are liked and the users who like them. Definitions are translated from the
-- source; paths are from the repository's root.
--
-- The parts and their files:
-- - `Domain` (src/domain.rs): ContentType, ContentId and UserId with their parsers and printers;
--   `Domain.ContentTypes` and `Domain.Ids` have the laws of the parsers.
-- - `Error` (src/error.rs): AppError and its parts, with the HTTP answer and the log entry of each.
-- - `CircuitBreaker` (src/resilience/circuit_breaker.rs): one step function for each of
--   `allow_request`, `record_success` and `record_failure`. `Outcomes` has the window of outcomes,
--   `Invariant` well-formedness over any sequence of calls, `Transitions` the state diagram, `Runs`
--   exact thresholds.
-- - `Storage` (migrations/*.sql and the SQL of src/storage/likes_repository.rs): the three tables and
--   one function for each statement; `Storage.Counting` and `Storage.Consistency` relate the counters
--   to the rows.
-- - `Effects` (src/app_state.rs): the state of the process, of Postgres and of Redis as the record
--   `World`, and the actions of handlers as functions from a world to a result and a world.
-- - `Repository` (src/storage/likes_repository.rs): transactions and queries as actions; `Steps` has
--   the rules for one call, `Insertion`, `Deletion` and `Reads` the theorems, `Histories` those over any
--   sequence of insertions and deletions.
-- - `Redis`: the keys of the world with their expiry, and one action for each command.
-- - `Http` (src/http/dto.rs, and the responses of src/error.rs): bodies, headers and answers.
-- - `Integrations` (src/integrations): the registry of content types, and the clients of the content
--   API and of the profile API, which call through a breaker.
-- - `Auth` (src/auth_middleware.rs): bearer tokens; `Auth.Tokens` says who is let in.
-- - `RateLimit` (src/resilience/rate_limit.rs): the Lua scripts, the leases of reads, and in
--   `RateLimit.Middleware` the two middlewares; `Windows` has the keys, `Reservation` the grants.
-- - `UseCases` (src/use_cases.rs): liking and unliking; `Liking` and `Unliking` say what an accepted
--   one has done, `Consistency` that the counters stay exact. The modules named `Tables` show which
--   actions leave the tables of Postgres alone.
-- - `Helpers` (src/http/helpers.rs): limits, cursors, cache keys and entity tags.
-- - `AppState` (src/app_state.rs): the local cache of counts and the fills that requests share.
-- - `Repository.Listing` (src/storage/likes_repository.rs): the pages of a user's likes, and in
--   `Ranking` the contents with most likes; `Storage.Ordering` has the order of a query's rows.
-- - `Http.Requests`, `Http.Caches` (src/http/helpers.rs): how a handler reads its request, and the caches
--   with the updates of counts; `Integrations.SseEvents` publishes the events of likes.
-- - `Http.Likes` and `Http.Counts` (src/http/likes.rs), `Http.UserLikes` (src/http/user_likes.rs),
--   `Http.Top` (src/http/top.rs), `Http.Batch` (src/http/batch.rs): the handlers. `Answers` says what
--   they answer, `Walk` follows the cursors of all pages, `Repeats` is about repeated items.
-- - `Grpc` (src/grpc.rs): the statuses of errors; `Messages`, `Requests` and `Service` the calls.
-- - `Health` (src/health.rs) and `Integrations.ContentAvailability`: readiness and its checks.
-- - `Config` (src/config.rs): the configuration from the environment.
-- - `Common`: the library's names, Boolean tests, lists, text, association lists, results, integers.
--
-- How the code corresponds: a struct is a record, an enum a data type with the same constructors, an
-- `async fn` with `?` an action of `Effects.Exec` in a do block. A `String` is the list of its code
-- points. Counts of the tables are natural numbers, as their CHECK constraints demand, and a value
-- above the range of BIGINT is an error. A `u32` wraps where the code adds with `+=`, and saturates
-- where the code says so. Subtraction of `Instant`s saturates at 0, as in Rust.
--
-- Failures and time: each call of Postgres, Redis and the HTTP services takes the next outcome of a
-- schedule in the world, and each reading of the clock lets an amount of time pass that the world
-- lists. A theorem for every world is therefore one for all failures and delays. Printing a number
-- takes the fuel `n + 1` for `n`, which `Common.Decimal` shows to be enough. The loop of a count that
-- waits for another request's fill takes one unit for each round; one round is enough where no fill
-- is in flight (`Http.Counts.Answers`). What other tasks do while a request waits is a parameter; in
-- a batch of counts they may also never wake it.
-- Every other loop is structural recursion on a list.
--
-- Parameters: the crate `uuid` (`Domain.UuidApi`, with its documented laws `Domain.UuidLaws`), base64
-- and UTF-8 (`Helpers.Base64Api`, `Helpers.Base64Laws`), the JSON library on cached results, the HTTP
-- library's text of a status, the environment, the RFC 3339 text of a time, and Postgres' order of
-- texts and its texts of times and intervals (`Repository.Listing.PostgresApi`, `PostgresLaws`).
--
-- Not modelled: the wiring of the servers (src/main.rs, src/infra/bootstrap.rs, src/infra/shutdown.rs,
-- src/http/routes.rs), which has no decisions of its own, the stream of events over a Redis
-- subscription (src/http/stream.rs), log lines, latencies, the page of documentation, the mock
-- services, and interleavings of handlers in one process but for what a waiting request meets.
pub mod Common
pub mod CircuitBreaker
pub mod Error
pub mod Domain
pub mod Storage
pub mod Effects
pub mod Repository
pub mod AppState
pub mod Auth
pub mod Config
pub mod Grpc
pub mod Health
pub mod Helpers
pub mod Http
pub mod Integrations
pub mod RateLimit
pub mod Redis
pub mod UseCases
