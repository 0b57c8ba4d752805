-- ===== src/Replay/EventLoop.antt =====
-- src/infertwin/replay/event_loop.py: the engine, the state of one instance's loop, and arrivals. The
-- requests' states are shared objects: they stand in a heap, at their `arrival_seq`, and the queues
-- hold addresses. The event sink is `StatsOnlyCacheEventSink`; `divide` is the division of floating
-- point numbers, and `epsilon` the tolerance of the composition of times.
pub mod Arrivals
pub mod Frontier
pub mod Waits
pub mod Apply
pub mod Run
use infer_twin.Base.{
  ℕ, zero, suc, String, Bool, true, false, not, List, [], ◌∷◌, Option, none, some, Result, ok,
  raise, key_error, value_error, reject_if, ◌>>=◌, ◌>>◌,
}
use infer_twin.Base.Dict.{lookup}
use infer_twin.Cache.EventSink.{CacheEventStats, record_many}
use infer_twin.Cache.Interface.{PrefixCache}
use infer_twin.Cache.Materialization.{
  MaterializationPolicy, finish_time, progressive_full_block, supports_progressive_chunks,
}
use infer_twin.Latency.Memo.{ShapeMemo}
use infer_twin.Latency.Schema.{LatencyResult}
use infer_twin.Replay.KvTransfer.{SharedLinkFifoTransferQueue}
use infer_twin.Replay.Metrics.Build.{BatchAwareRequestMetrics, IterationMetrics}
use infer_twin.Replay.Metrics.Lookup.{LookupMetrics}
use infer_twin.Replay.Timeline.{TimelineMode, legacy, progressive, other_mode}
use infer_twin.Request.Simulation.{SimulationRequest}
use infer_twin.Scheduler.BatchShape.{BatchShape}
use infer_twin.Scheduler.Config.{SchedulerConfig}
use infer_twin.Scheduler.Queue.{WaitingQueue, item_at}
use infer_twin.Scheduler.State.{RequestState}

-- `BatchLatencyBackend` of src/infertwin/latency/backend.py
pub record BatchLatencyBackend : Type 0 where
  pub name : String
  pub model_name : String
  pub hardware_name : String
  pub estimate_iteration : BatchShape → Result LatencyResult

-- `BatchAwareReplayEngine`, without the memo, which changes.
pub record Engine {ℓ} (C : Type ℓ) : Type ℓ where
  pub config : SchedulerConfig
  pub backend : BatchLatencyBackend
  pub cache_factory : String → C
  pub cache_operations : PrefixCache C
  pub materialization_policy : MaterializationPolicy
  pub timeline_mode : TimelineMode
  pub divide : ℕ → ℕ → ℕ
  pub epsilon : ℕ

-- The variables of `_run_instance`; `pending` begins at `pending_index`.
pub record Loop {ℓ} (C : Type ℓ) : Type ℓ where
  pub states : List RequestState
  pub pending : List SimulationRequest
  pub pending_index : ℕ
  pub now_ms : ℕ
  pub iteration_id : ℕ
  pub waiting : WaitingQueue ℕ
  pub running : List ℕ
  pub states_by_id : List (String × ℕ)
  pub requests_by_id : List (String × SimulationRequest)
  pub lookup_by_id : List (String × LookupMetrics)
  pub request_metrics : List BatchAwareRequestMetrics
  pub iteration_metrics : List IterationMetrics
  pub transfer_queue : SharedLinkFifoTransferQueue
  pub cache : C
  pub shape_memo : ShapeMemo
  pub sink : CacheEventStats

-- `_validate_timeline_mode`
abbrev pub mode_differs : TimelineMode → Bool
mode_differs legacy = false
mode_differs progressive = false
mode_differs (other_mode name) = true

-- `_default_materialization_policy`
abbrev pub default_materialization_policy : TimelineMode → MaterializationPolicy
default_materialization_policy progressive = progressive_full_block
default_materialization_policy _ = finish_time

-- `_validate_materialization_policy`
abbrev pub policy_differs : MaterializationPolicy → TimelineMode → Bool
policy_differs policy progressive = not (supports_progressive_chunks policy)
policy_differs policy _ = false

-- the checks of `__init__`
unfoldable pub check_engine {ℓ} : {C : Type ℓ} → Engine C → Result (Engine C)
check_engine e = do
  reject_if (mode_differs e.timeline_mode)
  reject_if (policy_differs e.materialization_policy e.timeline_mode)
  ok e

abbrev pub required {ℓ} : {A : Type ℓ} → Option A → Result A
required none = raise key_error
required (some a) = ok a

-- `d[key]`
unfoldable pub entry {ℓ} : {A : Type ℓ} → String → List (String × A) → Result A
entry key d = required (lookup key d)

-- an object's fields are set
unfoldable pub write_at : ℕ → RequestState → List RequestState → List RequestState
write_at i s [] = []
write_at zero s (x ∷ xs) = s ∷ xs
write_at (suc i) s (x ∷ xs) = x ∷ write_at i s xs

module _ {ℓ} {C : Type ℓ} where
  unfoldable pub state_of : ℕ → Loop C → Result RequestState
  state_of a l = item_at a l.states

  unfoldable pub update : ℕ → RequestState → Loop C → Loop C
  unfolding write_at
  update a s l = record l { states = write_at a s l.states }

  -- `_drain_cache_events`
  unfoldable pub drain_cache_events : Engine C → Loop C → Loop C
  drain_cache_events e l =
      let (events, c) = e.cache_operations.take_events l.cache in
      record l { cache = c; sink = record_many events l.sink }
