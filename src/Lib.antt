-- ===== src/Lib.antt =====
-- Verification of chat2sql, a service that lets a language model write SQL for a database and runs
-- what it wrote. Ten parts are modelled.
--
-- SqlSecurity (internal/service/sql_security.go) is the gate in front of the database:
-- `ValidateSQL` takes a text and says whether it may run. Config holds the configuration, the
-- validator and its results; Patterns the expressions of `initializePatterns`; Statements, Clean,
-- QueryType, Checks and Tables one check each, named as in the code (`checkStatementCount`,
-- `cleanSQL`, `detectQueryType`, `checkForbiddenKeywords` with `checkSQLInjection`,
-- `extractTables`); Risk the two scores; Validate the sequence of steps, the strict form and the
-- report. Quotes, Verdict, Outcome, Total, Hidden and Squeeze hold proofs.
--
-- Regexp models the standard package `regexp` as far as the expressions of the validator go:
-- Regexp.antt is a backtracking matcher, Language and Complete relate it to a declarative matching
-- relation, Search the searches (`MatchString`, `FindAllString`, `ReplaceAllString`) to occurrences.
--
-- MetadataCache (internal/service/metadata_cache.go) is shared by all requests and keeps what the
-- schema repository answered: State holds the three caches and the statistics, Schemas, Tables and
-- Patterns the three reads, Prewarm `PrewarmCache`, Upkeep the invalidation and the cleanup, Runs any
-- sequence of calls. The repository is a parameter of each call, since its answers change. Keys, Reads,
-- Cleanup, Outcomes and Invariant hold proofs.
--
-- HealthChecker (internal/routing/health_checker.go, with two types of
-- internal/routing/model_registry.go) decides which language models may be asked: State, Errors,
-- Check and Health hold one check from the probe to the status, Queries the reports, Runs any
-- sequence of calls, each a whole check or another call, Overlap the two steps of a check in any order with
-- those of others; Begin, Entries, History, Results and Metrics hold proofs. The answer of a model's API and the
-- float average of two durations are parameters.
--
-- CostTracker (internal/ai/cost_tracker.go) counts what the language models cost: State, Usage (the
-- records of a day and of a user) and Budget (prices, limits, alerts) hold the operations, Days and
-- Alerts proofs. Amounts are floats, known by the operations in `Floats` only.
--
-- Auth (internal/auth/jwt_service.go) issues, checks and revokes tokens: Claims, Tokens (the pair, the
-- validations, the refresh), Keys, Revocation (one token) and Users (all tokens of a user) hold the
-- operations; RoundTrip, Blacklist and Marks hold proofs. Library states what is relied on of the packages
-- jwt and redis, and Samples has an instance of both.
--
-- Middleware (internal/middleware) runs before the handlers: Context (what a request brings and what is
-- kept of it), Guard (`JWTAuth`, `OptionalAuth`), Roles, Limits (`RateLimiter`, over the buckets of
-- golang.org/x/time/rate as a parameter), Metrics and Headers hold the operations; Access, Buckets and
-- Windows hold proofs. Guard calls the functions of Auth.
--
-- SqlExecutor (internal/service/sql_executor.go) runs what the gate let through: Values, Rows (the loop
-- with its limits), Execute and Info hold the operations; Longest, Limits, Reported and ReadOnly proofs.
-- The database is the list of its answers.
--
-- ContextManager (internal/ai/context_manager.go, with the check of a question from
-- internal/ai/prompts.go) remembers schemas, histories and habits: State, Patterns (what is learnt from a
-- query), Schemas, History, Upkeep, Printing and Building hold the operations, Runs any sequence of calls;
-- Memory, Bounds, Invariant, Recent and Cached hold proofs.
--
-- ConnectionManager (internal/service/connection_manager.go) keeps the pools that SqlExecutor runs its
-- queries on: State, Pools (the look-up and the creation of a pool, start and stop) and Changes (of a
-- connection, health check, cleanup) hold the operations, Runs any sequence of calls; Limit and Steps hold
-- proofs. Calls that overlap are not modelled here: each is one step.
--
-- Prelude holds what the parts share: lists and texts over the native numbers, Go maps as association
-- lists, results with an error, the window of the newest elements, decimal numbers and how they are
-- parsed, Boolean tests.
--
-- Representation. A text is the list of its bytes. The Unicode tables behind `strings.ToUpper` and
-- its kin are a parameter (`Unicode` in Prelude/Text) that is read for texts with a byte of 128 or
-- more only. A Go map that is iterated has its iteration order as a parameter where the order can show.
-- A run-time panic is `none`. Times are nanoseconds from a common start and do not run backwards below
-- zero; counters do not reach 2 ^ 63. A call that holds the locks of an object is one step.
--
-- Each loop is a recursion on the text, the pattern or the list that it consumes. The matcher recurses on
-- the pattern and, inside a repetition, on the text. Only the printing of a number has fuel, for which its
-- value and one is enough, since each digit makes the number smaller.
--
-- Not modelled: the database, the handlers of the HTTP routes, logging, the calls of the language
-- models, and the heuristics on floating-point scores.
pub mod Prelude
pub mod Regexp
pub mod SqlSecurity
pub mod MetadataCache
pub mod HealthChecker
pub mod CostTracker
pub mod Auth
pub mod Middleware
pub mod SqlExecutor
pub mod ContextManager
pub mod ConnectionManager
