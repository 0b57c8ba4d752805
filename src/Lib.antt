-- ===== src/Lib.antt =====
-- InferTwin replays traces of inference requests through prefix caches, a batch scheduler and a
-- latency model, and reports the time to the first token. This library models the replay: the
-- requests and their blocks, the caches, the accounting of cached tokens, the scheduler, the loop
-- that drives them, the link that loads cached blocks, and the metrics that come out of it.
--
-- How the parts interact. A request is a list of prefix blocks (`src/infertwin/request/block_hasher.py`).
-- The loop (`src/infertwin/replay/event_loop.py`) puts the requests of one instance into a waiting queue
-- as they arrive, looks those up in the cache that the next iteration may reach, and finishes the
-- ones with nothing to compute. The tiered cache looks the blocks up in HBM and the rest in DDR;
-- accounting turns the hits into cached tokens, with an effective block size and a conversion; the
-- request's state records them with `set_cache_lookup`. The scheduler puts running and waiting
-- requests into a batch within its budgets; the latency backend, behind a memo, says how long it
-- takes; then `apply_scheduled_tokens` advances the requests, what was computed becomes visible in
-- the caches through a materialization policy, and DDR hits are loaded over a shared link. A finished
-- request leaves metrics, which a sweep adds up, all at once or as they come.
--
-- Which file models what:
--   Request.Block, Request.Hasher
--                        the blocks of `src/infertwin/request/block_hasher.py`
--   Request.Simulation, Request.Arrival
--                        the request of `src/infertwin/instance/request.py`, and the order of replay
--   Cache.Store          `HBMCache` of `src/infertwin/cache/hbm_lru.py`; Cache.Ddr is `DDRLRUCache` of
--                        `src/infertwin/cache/ddr_lru.py`, the same operations at the other tier
--   Cache.Eviction       the policy protocol and `LRUEvictionPolicy` of `src/infertwin/cache/eviction.py`
--   Cache.Infinite       `InfiniteHBMCache` of `src/infertwin/cache/infinite_hbm.py`
--   Cache.Tiered         `TieredPrefixCache` of `src/infertwin/cache/tiered.py`
--   Cache.Events, Cache.Results, Cache.EventSink
--                        `events.py`, `results.py` and `event_sink.py` of `src/infertwin/cache`
--   Cache.BlockSize, Cache.Conversion, Cache.Accounting
--                        `block_size.py`, `cache_block_conversion.py` and `cached_token_accounting.py`
--   Cache.Materialization  the policies of `src/infertwin/cache/materialization.py`
--   Scheduler.State      `RequestState` of `src/infertwin/scheduler/state.py`
--   Scheduler.Config     `config.py` and `planning.py` of `src/infertwin/scheduler`
--   Scheduler.Queue      `WaitingQueue` of `src/infertwin/scheduler/queue.py`
--   Scheduler.BatchShape the slices and shapes of `src/infertwin/scheduler/batch_shape.py`
--   Scheduler.VllmLike   `schedule` of `src/infertwin/scheduler/vllm_like.py`
--   Replay.Timeline      the modes and states of `src/infertwin/replay/timeline.py`
--   Replay.EventLoop     `BatchAwareReplayEngine` of `src/infertwin/replay/event_loop.py`: its fields and
--                        the loop's variables. Arrivals, Frontier, Waits, Apply and Run below it
--                        are the arrivals, the lookups before an iteration, the waits, the end of
--                        an iteration, and the loop of an instance and of all instances
--   Replay.Iteration     the timeline states of a request in that loop
--   Replay.KvTransfer    the queue of `src/infertwin/replay/kv_transfer.py`
--   Replay.Ttft          the composer of `src/infertwin/replay/ttft.py`
--   Replay.Metrics.Lookup, Replay.Metrics.Latency, Replay.Metrics.Build
--                        `src/infertwin/replay/metrics.py`: lookups, shares of the latency, and the
--                        records of requests and iterations
--   Latency.Schema, Latency.Memo
--                        `schema.py` and `memo.py` of `src/infertwin/latency`
--   Cache.Interface      the protocol of `src/infertwin/cache/base.py`
--   Experiment.Rows      the rows and percentiles of `src/infertwin/experiment/sweep.py`
--   Instance.Replay      `InfiniteHBMReplayEngine` of `src/infertwin/instance/replay.py`
--   Streaming.Json, Streaming.Fields, Streaming.Codec
--                        `src/infertwin/streaming/request_codec.py`
--   Streaming.Source     `ListRequestSource` of `src/infertwin/streaming/source.py`
--   Streaming.Aggregate, Streaming.Scopes
--                        `_ScopeAccumulator` and `CapacitySweepStreamingMetricAggregator` of
--                        `src/infertwin/streaming/metrics.py`
-- Base holds shared helpers, and Tests applies theorems to small inputs. The modules below a module
-- (Laws, Grouping, Store.Lookup, Write, Order, Bound, Step, Loops, Progress, Materialized, Summary,
-- Sums, Found, Inferred, Waiters) hold its proofs.
--
-- How the code is read. An operation that changes an object is a function that returns the new one;
-- an exception is a value of `Result`, without its message, and the state at an exception is kept
-- only where it can be seen afterwards (the event sink). Times, latencies and counts are natural
-- numbers, so a check that a number is not negative passes; the rounding of floating point numbers
-- is not modelled, and neither are the checks of Python types. A dict is a list of pairs in order of
-- insertion. An eviction policy is a record of operations, with laws that the LRU policy fulfils;
-- the cache behind a materialization policy is a parameter. The loop takes a cache behind the protocol
-- and a latency backend as records of operations. The states of its requests are shared objects, so
-- they stand in a heap, at the place that `arrival_seq` names, and the queues and dicts hold places.
-- SHA-256, the texts of times, the messages of exceptions and the division of floating point numbers
-- are parameters.
--
-- Loops are structural recursions, except some on fuel. `evict_until` evicts while the cache is full;
-- each turn removes one block, so one more than the resident blocks is enough. `waiting_loop` takes
-- requests from the queue; each turn takes one or ends, so the length of the queue is enough.
-- `plan_waiting` steps over a waiting request, removes it or ends, and `hash_blocks` takes a token or
-- more in each turn, so the same holds of the queue and of the tokens. The theorems on writing,
-- scheduling, the frontier and the blocks show that none of these runs out. `run_loop` is the loop of
-- an instance; each iteration computes a token or loads, and no bound on its fuel is shown.
--
-- Not modelled: the latency backends (numerical models), the building of requests
-- from traces with tokenizers and templates, the streaming engine and its files, the reading of
-- traces and of configuration, the drivers of experiments, external simulators, reports, the command
-- line and the scripts.
pub mod Base
pub mod Request
pub mod Cache
pub mod Latency
pub mod Scheduler
pub mod Replay
pub mod Instance
pub mod Experiment
pub mod Streaming
pub mod Tests
