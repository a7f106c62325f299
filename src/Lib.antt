-- ===== src/Lib.antt =====
-- Kinglet, an emulator of Google Cloud services: the parts that keep state, and what makes them correct.
--
-- The program is a TypeScript server. A gateway hands requests to services; the services keep records in
-- tables of a storage manager, whose in-memory provider has an LRU cache beside it; background engines
-- dispatch tasks and push messages; data planes share one embedded Postgres through a session queue and
-- take TCP ports from an allocator. The files below follow these parts.
--
-- - Base: Boolean tests on native numbers, lists, results, integers. Dict: JavaScript's `Map`, an
--   association list in insertion order.
-- - Cache: src/core/storage/cache/lru-cache.ts. The `Map` of entries is the list, oldest first; `get`,
--   `set`, `has`, `delete`, `cleanup`, `deleteByPrefix`, `clear` and `destroy` are functions on the state,
--   with `Date.now()` as an argument. `evictByMemory` runs on fuel, the number of entries, which is enough
--   because each turn removes one. Children: Steps (each operation), Invariant, Recency, Reads, Memory,
--   Prefix, Contents, Tests.
-- - Storage: src/core/storage/providers/memory.ts. Storage itself is one typed table, on which the message and
--   task repositories stand. Provider is the provider: a `Map` of tables and the cache of the Cache modules,
--   with one function per method and one time per call; each call runs to its end before the next. Filters,
--   sort orders and updates are functions there, and transactions are left out.
--   The texts `table:id` tell tables apart where their names have no colon, which the theorems ask for.
--   Children: Operations, Calls (runs), Keys, Coherent (the cache agrees with the tables), Writes, Deletes,
--   Lookups, Agreement, Uncached, Batches, Tests.
-- - SessionQueue: src/shared/postgres-data-plane/pglite-session-queue.ts. `enqueue`, `detach` and the
--   `drain` loop, cut at their `await`s, are steps of a world that holds the queue, the running message and
--   the backend, which is a parameter. Children: Isolation (the invariant), Steps (reachability),
--   Fairness, Promises, Recovery, Tests.
-- - Armor: src/services/compute/armor. RateLimit is rate-limit.ts: the fixed windows and bans of
--   `applyRateLimit`, for a client key that is given; Validation has `validateRateLimitOptions`. Evaluation is
--   evaluate.ts beside it: the walk over a policy's rules, with its children Order,
--   Priority, Previews and Phases.
--   Expressions, address ranges and the inspected request are an interface of it. Expressions is the parser of
--   expression.ts on tokens without positions, each of its calls at the cost of a unit of fuel; its children are
--   Parser, Printer, which writes trees as tokens, Steps, Levels, Operators, Sequences, Maps, RoundTrip, Measure,
--   MoreFuel and Fuel (twelve units for each token and seven more are enough, since a call goes down at most eleven
--   levels before it takes a token), and Constraints, the write-time check, where the widths of the calls and
--   comparisons in the text, by their place in the order of the walk, and the compiler of regular expressions are parameters.
-- - Tasks: src/services/tasks. TokenBucket is token-bucket.ts, Items is task-repository.ts, Dispatch is
--   `dispatchTask` of dispatch-engine.ts, cut at the call of the HTTP client, whose answer is a value; Tick is
--   what `tick` takes from one queue.
-- - Pubsub: src/services/pubsub. Messages is message-repository.ts, with its maintenance in a child;
--   Delivery is the push of delivery-engine.ts. The ids that `crypto.randomUUID` gives are a parameter, and
--   where a theorem needs it, they are taken never to repeat.
-- - Shared: src/shared/utils. Ports is port-allocator.ts; the loop of `allocateBound` runs on fuel, one
--   turn more than the range has ports, since every port that refuses stays claimed until the loop ends.
--   What the probe finds is taken to be the same during a call.
--
-- Times and durations are milliseconds. Numbers are unbounded natural numbers, and tokens integers, where
-- the code has floating-point numbers; rounding is left out. Texts of JSON that the code parses are
-- records, or a parameter says what the parser makes of them.
--
-- Not modelled: the gateway's routing, the tokenizer and the evaluator of Cloud Armor's expressions, workflows,
-- the scheduler, the SQL providers, and the handlers of the other services; logging, timers, sockets and
-- HTTP are outside.
pub mod Base
pub mod Dict
pub mod Storage
pub mod Cache
pub mod SessionQueue
pub mod Armor
pub mod Tasks
pub mod Pubsub
pub mod Shared
