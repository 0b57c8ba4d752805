-- ===== src/Replay/EventLoop/Run.antt =====
-- src/infertwin/replay/event_loop.py: `_run_instance`, the loop of one instance, and `run`.
use infer_twin.Base.Order.{sorted, str_le}
use infer_twin.Base.{
  ℕ, zero, suc, ◌+◌, String, Bool, true, false, ◌&&◌, ◌||◌, not, List, [], ◌∷◌, ◌++◌, Result, ok,
  raise, index_error, out_of_fuel, reject_if, ◌>>=◌, ◌>>◌, if◌then◌else◌, ltb, leb, ◌==◌, str_eq,
  max, map,
}
use infer_twin.Cache.EventSink.{CacheEventStats, no_events}
use infer_twin.Latency.Memo.{ShapeMemo, get_or_compute}
use infer_twin.Latency.Schema.{LatencyResult, from_shape}
use infer_twin.Replay.EventLoop.Apply.{apply_schedule_result}
use infer_twin.Replay.EventLoop.Arrivals.{move_arrivals, group_by_instance}
use infer_twin.Replay.EventLoop.Frontier.{prepare_scheduler_frontier, unfinished}
use infer_twin.Replay.EventLoop.Waits.{record_iteration_compute_wait}
use infer_twin.Replay.EventLoop.{Engine, Loop, state_of, write_at, drain_cache_events}
use infer_twin.Replay.KvTransfer.{new_queue}
use infer_twin.Replay.Metrics.Build.{
  BatchAwareRequestMetrics, IterationMetrics, BatchAwareReplayResult,
}
use infer_twin.Request.Arrival.{arrives_before}
use infer_twin.Request.Simulation.{SimulationRequest}
use infer_twin.Scheduler.BatchShape.{BatchShape}
use infer_twin.Scheduler.Queue.{init, len, iter}
use infer_twin.Scheduler.State.{RequestState}
use infer_twin.Scheduler.VllmLike.{schedule, is_empty}

-- What a turn of the loop does: `continue`, `break`, or go on to the next iteration.
pub data Turn {ℓ} (C : Type ℓ) : Type ℓ where
  go_on : Loop C → Turn C
  leave : Loop C → Turn C

abbrev pub nothing_pending : List SimulationRequest → Bool
nothing_pending [] = true
nothing_pending (r ∷ rs) = false

abbrev pub first_start : List SimulationRequest → Result ℕ
first_start [] = raise index_error
first_start (r ∷ rs) = ok r.start_time_ms

abbrev pub nothing_running : List ℕ → Bool
nothing_running [] = true
nothing_running (a ∷ rest) = false

-- the states that are written back after the scheduler has changed them
unfoldable pub write_back : List RequestState → List RequestState → List RequestState
write_back [] states = states
write_back (s ∷ changed) states = write_back changed (write_at s.arrival_seq s states)

-- the orders of the results
abbrev pub metric_before : BatchAwareRequestMetrics → BatchAwareRequestMetrics → Bool
metric_before a b =
    ltb a.arrival_time_ms b.arrival_time_ms
    || (a.arrival_time_ms == b.arrival_time_ms && str_le a.request_id b.request_id)

abbrev pub iteration_before : IterationMetrics → IterationMetrics → Bool
iteration_before a b =
    ltb a.start_time_ms b.start_time_ms
    || (a.start_time_ms == b.start_time_ms
        && (not (str_le b.instance_uuid a.instance_uuid)
            || (str_eq a.instance_uuid b.instance_uuid && leb a.iteration_id b.iteration_id)))

module _ {ℓ} {C : Type ℓ} where
  unfoldable pub is_idle : Loop C → Bool
  is_idle l = len l.waiting == 0 && nothing_running l.running

  -- the objects at the addresses
  unfoldable pub states_at : List ℕ → Loop C → Result (List RequestState)
  states_at [] l = ok []
  states_at (a ∷ rest) l = do s ← state_of a l; states ← states_at rest l; ok (s ∷ states)

  -- `self.scheduler.schedule(…)`, which changes the queues and the states in place; of the states it
  -- changes only those that are running afterwards
  unfoldable pub schedule_batch : String → Engine C → Loop C → Result (BatchShape × Loop C)
  unfolding states_at write_back
  schedule_batch instance_uuid e l = do
    items ← states_at l.waiting.items l
    running ← states_at l.running l
    (shape, waiting', running') ←
        schedule e.config instance_uuid l.iteration_id l.now_ms
          (record { items = items; head = l.waiting.head }) running
    ok (
      shape,
      record l {
        states = write_back running' l.states;
        waiting = record { items = map (λ s. s.arrival_seq) waiting'.items; head = waiting'.head };
        running = map (λ s. s.arrival_seq) running';
      },
    )

  -- `_estimate_latency`
  unfoldable pub estimate_latency : Engine C → BatchShape → Loop C → Result (LatencyResult × Loop C)
  estimate_latency e shape l = do
    let key = from_shape e.backend.name e.backend.model_name e.backend.hardware_name shape
    (latency, memo) ← get_or_compute key (e.backend.estimate_iteration shape) l.shape_memo
    ok (latency, record l { shape_memo = memo })

  -- one iteration: a batch is scheduled, and its end applied
  unfoldable pub iterate : String → Engine C → Loop C → Result (Loop C)
  unfolding schedule_batch estimate_latency
  iterate instance_uuid e l = do
    (shape, l1) ← schedule_batch instance_uuid e l
    reject_if (is_empty shape)
    (latency, l2) ← estimate_latency e shape l1
    let finish_ms = l.now_ms + latency.duration_ms
    (wait, states) ←
        record_iteration_compute_wait (iter l2.waiting ++ l2.running)
          (map (λ s. s.request_id) shape.request_slices) latency.duration_ms e.timeline_mode
          l2.states
    l3 ← apply_schedule_result e shape latency finish_ms wait (record l2 { states = states })
    let l4 = drain_cache_events e l3
    running ← unfinished e l4.running l4
    ok (record l4 { running = running; now_ms = finish_ms; iteration_id = l4.iteration_id + 1 })

  -- with a request that waits or runs
  unfoldable pub busy_turn : String → Engine C → Loop C → Result (Turn C)
  unfolding iterate is_idle
  busy_turn instance_uuid e l = do
    l1 ← prepare_scheduler_frontier e l
    let l2 = drain_cache_events e l1
    if not (is_idle l2)
        then (iterate instance_uuid e l2 >>= λ l3. ok (go_on l3))
        else if nothing_pending l2.pending
        then ok (leave l2)
        else do
          start ← first_start l2.pending
          ok (go_on (record l2 { now_ms = max l2.now_ms start }))

  unfoldable pub run_turn : String → Engine C → Loop C → Result (Turn C)
  unfolding is_idle busy_turn
  run_turn instance_uuid e l = do
    l1 ← move_arrivals e.timeline_mode l
    if not (is_idle l1)
        then busy_turn instance_uuid e l1
        else do start ← first_start l1.pending; ok (go_on (record l1 { now_ms = start }))

  unfoldable pub run_loop : (fuel : ℕ) → String → Engine C → Loop C → Result (Loop C)
  unfolding run_turn is_idle
  run_loop zero instance_uuid e l =
      if nothing_pending l.pending && is_idle l then ok l else raise out_of_fuel
  run_loop (suc fuel) instance_uuid e l =
      if nothing_pending l.pending && is_idle l then ok l else do
        turn ← run_turn instance_uuid e l
        elim turn [ go_on l' ↦ run_loop fuel instance_uuid e l' | leave l' ↦ ok l' ]

  -- `_run_instance`, with the memo that the instances share and the sink
  unfoldable pub run_instance :
      (fuel : ℕ)
      → String
      → Engine C
      → List SimulationRequest
      → ShapeMemo
      → CacheEventStats
      → Result (List BatchAwareRequestMetrics × List IterationMetrics × ShapeMemo × CacheEventStats)
  unfolding run_loop
  run_instance fuel instance_uuid e [] memo sink = ok ([], [], memo, sink)
  run_instance fuel instance_uuid e (r ∷ requests) memo sink = do
    let pending = sorted arrives_before (r ∷ requests)
    start ← first_start pending
    queue ← new_queue instance_uuid
    l ← run_loop fuel instance_uuid e (record {
      states = [];
      pending = pending;
      pending_index = 0;
      now_ms = start;
      iteration_id = 0;
      waiting = init [];
      running = [];
      states_by_id = [];
      requests_by_id = [];
      lookup_by_id = [];
      request_metrics = [];
      iteration_metrics = [];
      transfer_queue = queue;
      cache = e.cache_factory instance_uuid;
      shape_memo = memo;
      sink = sink;
    })
    let l' = drain_cache_events e l
    ok (l'.request_metrics, l'.iteration_metrics, l'.shape_memo, l'.sink)

  -- the loop of `run` over the instances
  unfoldable pub run_groups :
      (fuel : ℕ)
      → Engine C
      → List (String × List SimulationRequest)
      → ShapeMemo
      → CacheEventStats
      → Result (List BatchAwareRequestMetrics × List IterationMetrics × ShapeMemo × CacheEventStats)
  unfolding run_instance
  run_groups fuel e [] memo sink = ok ([], [], memo, sink)
  run_groups fuel e ((instance_uuid, requests) ∷ groups) memo sink = do
    (request_metrics, iteration_metrics, memo1, sink1) ←
        run_instance fuel instance_uuid e requests memo sink
    (later_requests, later_iterations, memo', sink') ← run_groups fuel e groups memo1 sink1
    ok (request_metrics ++ later_requests, iteration_metrics ++ later_iterations, memo', sink')

  -- `run`; the memo of the engine afterwards is returned too
  unfoldable pub run :
      (fuel : ℕ)
      → Engine C
      → List SimulationRequest
      → ShapeMemo
      → Result (BatchAwareReplayResult × ShapeMemo)
  unfolding run_groups
  run fuel e requests memo = do
    (request_metrics, iteration_metrics, memo', sink) ←
        run_groups fuel e (group_by_instance requests) memo no_events
    ok (
      record {
        request_metrics = sorted metric_before request_metrics;
        iteration_metrics = sorted iteration_before iteration_metrics;
        cache_event_stats = sink;
        cache_events = [];
      },
      memo',
    )
