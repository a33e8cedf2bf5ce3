-- ===== src/Lib.antt =====
-- The mood rule service: a gRPC service that recommends products for a user's mood. It keeps rules
-- in memory, evaluates them against the context of a request, asks the product catalog for products
-- that fit the matched rules, ranks them by the rules' scores, and caches the answers. The moods come
-- from the auth service, the rules from a database; an HTTP handler passes changes of moods on, and an
-- event bus those of moods and rules.
--
-- How the files correspond to the code (paths from the repository's root):
--   Model, Match      internal/model/rule.go, internal/model/product.go: rules, contexts, `Matches`
--                     with its loops and counters, `CalculateScore`.
--   Engine            internal/engine/rule_engine.go: `Load`, `Reload`, `buildIndex`, `Evaluate`. The
--                     engine is the record `RuleEngine`; what the repository answers is `RuleStore`.
--   Cache             internal/cache/memory_cache.go: each method a function on the record
--                     `MemoryCache`; `Cache.History` runs any sequence of them.
--   Ranking, Filters  `scoreProducts` and `aggregateFilters` of internal/grpc/server.go.
--   Sort              what Go documents of `sort.Slice`, and the nested loops of `scoreProducts`.
--   Server            the rest of internal/grpc/server.go. `Server.Recommend` cuts `Recommend` where
--                     it returns early; a call goes from a server to the reply, the server afterwards
--                     and the list of the metrics that it changed. The server holds the engine, the
--                     cache and the two clients, and calls Engine, Cache, Filters and Ranking.
--   EventBus          internal/eventbus/eventbus.go: the map of handlers, and `PublishSync` as a step
--                     relation over the interleavings of its goroutines.
--   Config            internal/config/config.go: `Load` with all variables and defaults, `Validate`;
--                     `Config.Fields` says once more, as a relation, which variable and which default
--                     each field is read from.
--   Clients           internal/grpc/clients: `Clients` is the retry loop that the methods of both
--                     clients share, `Clients.Auth` and `Clients.Catalog` are the two clients.
--   Repository        internal/repository/rule_repository.go: every method; `rule_store` is the
--                     repository as Engine sees it.
--   MoodHandler       internal/http/mood_handler.go: `UpdateMood`, from the decoded body and the header to
--                     the reply, with the handlers that it starts on the bus.
--   Service           cmd/server/main.go: the start, which builds the parts above, and the handler of rule
--                     updates, which calls Engine, Cache and EventBus. `Service.Threads` is the running
--                     service: requests, which go through the steps of `Server.Recommend.Stepwise`, and
--                     handlers of rule updates are threads that interleave with changes of the database
--                     and clean-ups of the cache. No code of the repository publishes rule_updated yet,
--                     so the threads have more runs than the program. `Service.Reachable` has larger
--                     steps.
--                     `Service.Http` has the routes, `Service.Shutdown` the end of `main`.
--   Logger            pkg/logger/logger.go: the global logger, and the trace in a context.
--   Metrics           pkg/metrics/metrics.go: the collectors, and the changes that Server and Clients
--                     make as calls of them.
--   Float             `float64`: its operations and the laws of `>`, NaN included, as a parameter.
--   Common            lists, Go maps as association lists, Go's `int`, decimal digits, errors.
--   Tests             a number type, sample data, and the theorems at it.
--
-- Parameters: `float64` (the type F), `encoding/json` (the two functions of `Cache.Json` over bytes B),
-- `sort.Slice`, the order in which a map is gone through, the environment and the parsers of strconv
-- and time, gobreaker (`CircuitBreaker`), gRPC's stubs and dials, net/http, the pool of pgx, zap, Go's
-- contexts and its HTTP multiplexer, fresh UUIDs, and the moments at which the code reads the time.
-- What the other services, the breaker and the clock do to one another is a state W that every call
-- passes on; `IsBreaker`, `IsTable`, `ContextLaws` and `IsMux` say what is relied on of a breaker, the
-- SQL statements, the contexts and the multiplexer. Of a statement that fails, nothing is assumed about
-- what it left in the table; of what the multiplexer does, only paths in which nothing is escaped and
-- methods other than CONNECT are meant. Times and durations are in nanoseconds. `int` is an
-- unbounded integer: the code compares priorities and counts, multiplies a pause by the number of an
-- attempt, and is not meant to overflow them; the conversions to `int32` wrap around. `sort` rounds and
-- all other loops are structural recursions, so no fuel runs out: the exchange sort takes as many
-- rounds as there are elements, and the retry loop counts down the `maxRetries` + 1 rounds that it may
-- take.
--
-- Not modelled: the health service and the reflection of gRPC and the limits of its messages, which are
-- settings of libraries; what zap and Prometheus put out; the log lines of the other packages; the
-- pages that net/http, promhttp and the file server write; the protocol buffers, whose code is
-- generated. What a thread does between two accesses of what is shared is one step, and so is a section
-- under a lock.
pub mod Common
pub mod Float
pub mod Model
pub mod Match
pub mod Sort
pub mod Engine
pub mod Cache
pub mod Ranking
pub mod Filters
pub mod Server
pub mod EventBus
pub mod Config
pub mod Clients
pub mod Repository
pub mod MoodHandler
pub mod Service
pub mod Logger
pub mod Metrics
pub mod Tests
