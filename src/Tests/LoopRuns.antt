-- ===== src/Tests/LoopRuns.antt =====
-- The theorems on the replay loop, applied.
use infer_twin.Base.{
  refl, ℕ, ◌/◌, map, String, List, [], ◌∷◌, none, Result, ok, raise, ◌≡◌, arith, true, false, inl,
}
use infer_twin.Cache.EventSink.{no_events}
use infer_twin.Cache.Infinite.{InfiniteCache, init}
use infer_twin.Cache.Infinite as Infinite
use infer_twin.Cache.Interface.{PrefixCache}
use infer_twin.Cache.Materialization.{progressive_full_block}
use infer_twin.Latency.Schema.{LatencyResult, from_shape}
use infer_twin.Replay.EventLoop.Arrivals.Grouping.{Grouped, group_by_instance-Grouped}
use infer_twin.Replay.EventLoop.Arrivals.Laws.{Moved, move_arrivals-Moved}
use infer_twin.Replay.EventLoop.Arrivals.{move_arrivals, group_by_instance, state_from_request}
use infer_twin.Replay.EventLoop.Frontier.Laws.{FrontierRun, plan_waiting-FrontierRun}
use infer_twin.Replay.EventLoop.Frontier.{plan_waiting}
use infer_twin.Replay.EventLoop.Waits.Laws.{
  Attributed, waiters_in, record_iteration_compute_wait-Attributed,
}
use infer_twin.Replay.EventLoop.Waits.{ComputeWaitAccounting, record_iteration_compute_wait}
use infer_twin.Replay.EventLoop.Apply.Laws.{SliceApplied, after_slice, apply_tokens-SliceApplied}
use infer_twin.Replay.EventLoop.Apply.{apply_tokens}
use infer_twin.Replay.EventLoop.Waits.{record_scheduled_kv_load_timing}
use infer_twin.Replay.Metrics.Lookup.{LookupMetrics}
use infer_twin.Scheduler.Config.{plan_remaining, per_request_chunk_limit}
use infer_twin.Scheduler.State.Laws.{loaded}
use infer_twin.Scheduler.VllmLike.Step.{slice_of}
use infer_twin.Tests.SchedulerRuns.{request_in, request_in-IsReady, budget_of_eight}
use infer_twin.Replay.EventLoop.Run.{run}
use infer_twin.Replay.EventLoop.{Engine, Loop}
use infer_twin.Latency.Memo.{ShapeMemo}
use infer_twin.Replay.Metrics.Build.{BatchAwareReplayResult}
use infer_twin.Replay.KvTransfer.{check_request, submit}
use infer_twin.Replay.Timeline.{progressive, waiting_for_kv_load}
use infer_twin.Scheduler.BatchShape.{BatchShape}
use infer_twin.Scheduler.Queue.{len}
use infer_twin.Scheduler.State.{
  RequestState, running, record_latency_contribution, record_kv_load_event,
}
use infer_twin.Tests.RequestSamples.{request}

-- the infinite cache behind the protocol
abbrev infinite_operations : PrefixCache InfiniteCache
infinite_operations = record {
  lookup_prefix = λ blocks now request_id instance_uuid c. ok (Infinite.lookup_prefix now blocks c);
  materialize =
      λ now request_id instance_uuid reason blocks c. ok (Infinite.materialize now blocks c);
  take_events = λ c. (Infinite.take_events c, c);
}

abbrev latency_of : BatchShape → LatencyResult
latency_of shape = record {
  duration_ms = 9;
  backend = "formula";
  shape_key = from_shape "formula" "m" "h" shape;
  memoized = false;
  details = [];
}

abbrev engine : Engine InfiniteCache
engine = record {
  config = record {
    max_num_batched_tokens = 8;
    max_num_seqs = 4;
    enable_chunked_prefill = true;
    long_prefill_token_threshold = none;
    policy = "fcfs";
  };
  backend = record {
    name = "formula";
    model_name = "m";
    hardware_name = "h";
    estimate_iteration = λ shape. ok (latency_of shape);
  };
  cache_factory = λ instance_uuid. init;
  cache_operations = infinite_operations;
  materialization_policy = progressive_full_block;
  timeline_mode = progressive;
  divide = ◌/◌;
  epsilon = 1;
}

-- one request waits, two are to arrive, of which one is due
abbrev loop : Loop InfiniteCache
loop = record {
  states = state_from_request (request "r1" 3) 0 progressive ∷ [];
  pending = request "r2" 4 ∷ request "r3" 8 ∷ [];
  pending_index = 1;
  now_ms = 5;
  iteration_id = 0;
  waiting = record { items = 0 ∷ []; head = 0 };
  running = [];
  states_by_id = ("r1", 0) ∷ [];
  requests_by_id = ("r1", request "r1" 3) ∷ [];
  lookup_by_id = [];
  request_metrics = [];
  iteration_metrics = [];
  transfer_queue = record {
    instance_uuid = "i1";
    next_available_time_ms = 0;
    unfinished_finish_times = [];
  };
  cache = init;
  shape_memo = record { results = [] };
  sink = no_events;
}

move_arrivals-Moved_example :
    (l' : Loop InfiniteCache) × (move_arrivals progressive loop ≡ ok l') × Moved progressive loop l'
move_arrivals-Moved_example = move_arrivals-Moved progressive loop

group_by_instance-Grouped_example :
    Grouped
      (request "r2" 4 ∷ request "r1" 3 ∷ [])
      (group_by_instance (request "r2" 4 ∷ request "r1" 3 ∷ []))
group_by_instance-Grouped_example = group_by_instance-Grouped (request "r2" 4 ∷ request "r1" 3 ∷ [])

record_iteration_compute_wait-Attributed_example :
    (acc : ComputeWaitAccounting) × (states' : List RequestState) × (record_iteration_compute_wait
        (0 ∷ 0 ∷ [])
        ("r9" ∷ [])
        9
        progressive
        loop.states
      ≡ ok (acc, states'))
    × Attributed 9
        (waiters_in progressive ("r9" ∷ []) (0 ∷ 0 ∷ []) loop.states)
        (record { waiting_for_compute_count = 0; compute_wait_ms = 0 })
        loop.states
        acc
        states'
record_iteration_compute_wait-Attributed_example =
    record_iteration_compute_wait-Attributed (0 ∷ 0 ∷ []) ("r9" ∷ []) 9 progressive loop.states
      (omega arith, (omega arith, tt))

-- nothing was found for the request
abbrev not_found : LookupMetrics
not_found = record {
  hbm_hit_tokens = 0;
  ddr_hit_tokens = 0;
  ddr_hit_bytes = 0;
  miss_tokens = 0;
  miss_blocks = [];
  materialization_blocks = [];
  raw_hbm_hit_tokens = 0;
  raw_ddr_hit_tokens = 0;
  raw_miss_tokens = 0;
  cached_token_cap = 0;
}

-- the load takes two milliseconds on the free link
abbrev loaded_in_two : RequestState
loaded_in_two =
    record_kv_load_event 2
      (record (loaded (request_in "r1" running true)) { timeline_state = waiting_for_kv_load })

apply_tokens-SliceApplied_example :
    (r' : RequestState) × (apply_tokens engine
        (slice_of (request_in "r1" running true) 7)
        not_found
        9
        (record_latency_contribution 4 2 0 loaded_in_two)
        init
      ≡ after_slice engine not_found init (slice_of (request_in "r1" running true) 7) 9 r')
    × SliceApplied (request_in "r1" running true) 7 r'
unfolding plan_remaining per_request_chunk_limit record_scheduled_kv_load_timing check_request
    submit record_kv_load_event
apply_tokens-SliceApplied_example =
    apply_tokens-SliceApplied engine not_found init budget_of_eight (request_in "r1" running true)
      (record { slices = []; token_budget = 8 }) 7 9 4 2 0 5 loop.transfer_queue
      (request_in-IsReady "r1" running) (record { plan = refl; work = refl; room = omega arith })
      (omega arith) refl

plan_waiting-FrontierRun_example : FrontierRun engine 0 8 0 loop (plan_waiting engine 1 0 8 0 loop)
unfolding len
plan_waiting-FrontierRun_example =
    plan_waiting-FrontierRun engine 1 0 8 0 loop
      (record { within = omega arith; dead = inl (omega arith) }) (omega arith)

-- Two requests with the same prompt of eleven tokens: the first is computed in two iterations, and after
-- one of them the second finds the two full blocks of it in the cache. `antt nf` on `times_two` gives the
-- times 18 and 17, and the missing tokens 11 and 3.
abbrev times_of : Result (BatchAwareReplayResult × ShapeMemo) → List (String × ℕ × ℕ)
times_of (raise e) = []
times_of (ok (result, memo)) =
    map (λ m. (m.request_id, m.ttft_ms, m.miss_tokens)) result.request_metrics

run_two : Result (BatchAwareReplayResult × ShapeMemo)
unfolding run
run_two = run 9 engine (request "r2" 4 ∷ request "r1" 3 ∷ []) (record { results = [] })

times_two : List (String × ℕ × ℕ)
unfolding run_two
times_two = times_of run_two
