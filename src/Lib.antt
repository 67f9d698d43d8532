-- ===== src/Lib.antt =====
-- Verification of NexusTS, a framework of packages for Bun and Node servers. The modules here model
-- the parts of the packages that keep state of their own and decide something about it; a definition
-- follows the source it is named after, clause by branch.
--
-- The parts. An application is a set of providers that the container of packages/core wires
-- together. The packages add services to it: packages/resilience protects calls of other systems
-- (circuit breaker, bulkhead, retry), packages/events lets parts call one another by name,
-- packages/session keeps what belongs to a visitor, packages/feature-flag turns parts on for some
-- users, packages/metrics counts, packages/tracing passes the id of a trace on, packages/limiter
-- limits the rate of requests, packages/cache keeps values with a time to live, packages/queue runs
-- jobs in the background, packages/schedule runs tasks at times. Most of these services keep their
-- state in memory, or hand the same operations to a server (Redis, a database, BullMQ, Cloudflare).
-- The in-memory forms are modelled, the others are calls of code that is not in the repository.
-- Within packages/resilience a call may go through a breaker, a bulkhead and a retry, each of which
-- takes the next one as its function; within packages/cache the service puts a prefix before the
-- keys and calls its store; within packages/session the service calls its backend and tells its
-- listeners; within packages/limiter the middleware asks the storage once for each rule of a
-- request.
--
-- The files.
--   Prelude: Boolean tests, lists, and JavaScript's `Map` and `Set` in insertion order.
--   Core/Provider, Core/World, Core/Instantiate, Core/Container: packages/core/src/di/container.ts.
--     `resolve` is the method of that name, `instantiate` the one it calls; the asked container and
--     its parents are one state, and the cache of the active request another part of it.
--   Resilience/Circuit: packages/resilience/src/circuit-breaker.ts. `enter` is `execute` up to the
--     call of its function, `record_call` what follows it.
--   Resilience/Bulkhead: packages/resilience/src/bulkhead.ts. `call` is `execute` up to its first
--     `await`, `resume` and `finish` what follows; `Step` is one turn of the event loop.
--   Resilience/Retry: packages/resilience/src/retry.ts, and the backoff of resilience.service.ts.
--   Resilience/Service: packages/resilience/src/resilience.service.ts, the registry of breakers and
--     bulkheads.
--   Events/Pattern, Events/Listener, Events/Emitter, Events/Dispatch: packages/events/src/emitter.ts.
--     `emit` is cut at each `await` of a listener.
--   Session/Records, Session/Memory: packages/session/src/types.ts and backends/memory.ts;
--     Session/Service: session.service.ts of that package, over that backend.
--   Tracing/Propagation: packages/tracing/src/propagation.ts, on texts as lists of codes.
--   Metrics/Labels, Metrics/Counter: packages/metrics/src/counter.ts.
--   FeatureFlag/Memory: packages/feature-flag/src/backends/memory.ts.
--   Limiter/Memory: packages/limiter/src/backends/memory.ts, the three strategies of `consume`;
--     Limiter/Service: limiter.middleware.ts and limiter.service.ts of that package, over it.
--   Cache/Memory: packages/cache/src/stores/memory.ts; Cache/Service:
--     packages/cache/src/cache.service.ts over that store.
--   Queue/Memory: packages/queue/src/backends/memory.ts. `run_job` calls a handler, up to its
--     `await`, and `settle` is what follows that.
--   Schedule/Tasks, Schedule/Memory: packages/schedule/src/backends/memory.ts, cut at the `await` in
--     the same way; the calculator of cron expressions is an argument.
--   Schedule/Cron: packages/schedule/src/cron-parser.ts, the values of a field and the matching of a
--     date, on texts that are split.
--
-- State is a record that each operation takes and returns. The clock (`Date.now()`) is an argument
-- of the operation that reads it, in milliseconds; a theorem that needs time to go on says so. An
-- asynchronous function is cut at its `await`s, and what may happen in between is any sequence of
-- the other operations: a list of calls, or a step relation. What a caller's function returns is an
-- argument. Where callers are given a stored object, as by packages/session, their writes to it are
-- calls too. Numbers are natural, but for what a counter is increased by; where the source divides
-- or subtracts, the model writes out what it does below zero and at fractions. The keys of a `Map`
-- are texts. A handler of packages/queue or packages/schedule may throw before its first `await`, and
-- ends within the tick then.
--
-- Bounds. The loop of the retry runs on the number of attempts left, which its options give; the
-- loops of the cache, the queue and the scheduler run over the lists that they copy. The loops over
-- numbers (the digits of an id, the values of a cron field) have one more step of fuel than the
-- number or the last value: each step divides the number by ten, or goes on by one at least.
-- `resolve` of the container takes fuel, since the stack has no bound in the model and a cycle of
-- providers may make it recurse for ever; as many units as there are providers and containers in the
-- chain are enough outside a request.
--
-- Not modelled: the scanner of modules, the router and the rest of packages/core; the stores and
-- backends of other systems; decorators and module files (they read metadata of classes and register
-- providers); timers (the work of a timer is an operation that may come at any time); the listeners
-- of the services but packages/events (an event is appended to a log); and the packages that are
-- mostly calls of other libraries. The regular expression that packages/cache and packages/limiter
-- make of a glob is the test that it makes of a text.
pub mod Prelude
pub mod Resilience
pub mod Limiter
pub mod Cache
pub mod Core
pub mod Events
pub mod Queue
pub mod Schedule
pub mod FeatureFlag
pub mod Metrics
pub mod Session
pub mod Tracing
