-- ===== src/Streaming/Aggregate.antt =====
-- src/infertwin/streaming/metrics.py: the metrics of a streaming replay, added up as they come. A list of
-- values that the source creates with its first value is empty before; `divide` is the division of
-- floating point numbers.
pub mod Summary
pub mod Laws
use infer_twin.Base.Dict.{lookup, insert}
use infer_twin.Base.{
  ℕ, ◌+◌, String, str_eq, Bool, not, List, [], ◌∷◌, ◌++◌, Option, none, some, Result, ok, reject_if,
  ◌>>=◌, ◌>>◌, ◌==◌, max,
}
use infer_twin.Experiment.Rows.{Scope, CapacitySweepRow, percentile, mode_eq, granularity_eq}
use infer_twin.Replay.Metrics.Build.{BatchAwareRequestMetrics, IterationMetrics, safe_rate}
use infer_twin.Replay.Timeline.{TimelineMode, TtftGranularity}

-- `_ScopeAccumulator`
pub record ScopeAccumulator : Type 0 where
  pub timeline_mode : TimelineMode
  pub ttft_granularity : TtftGranularity
  pub request_count : ℕ
  pub iteration_count : ℕ
  pub total_prompt_tokens : ℕ
  pub hbm_hit_tokens : ℕ
  pub ddr_hit_tokens : ℕ
  pub miss_tokens : ℕ
  pub total_kv_load_ms : ℕ
  pub total_compute_wait_ms : ℕ
  pub total_kv_load_wait_ms : ℕ
  pub total_uncached_prefill_compute_ms : ℕ
  pub total_unattributed_ttft_ms : ℕ
  pub total_chunk_count : ℕ
  pub total_load_event_count : ℕ
  pub total_progressive_materialized_blocks : ℕ
  pub total_progressive_materialized_tokens : ℕ
  pub total_waiting_for_compute_count : ℕ
  pub total_waiting_for_kv_load_count : ℕ
  pub total_scheduled_chunk_count : ℕ
  pub max_kv_transfer_queue_depth : ℕ
  pub ttft_values : List ℕ
  pub kv_load_values : List ℕ
  pub compute_wait_values : List ℕ
  pub kv_load_wait_values : List ℕ
  pub uncached_prefill_compute_values : List ℕ

unfoldable pub new_accumulator : TimelineMode → TtftGranularity → ScopeAccumulator
new_accumulator mode granularity = record {
  timeline_mode = mode;
  ttft_granularity = granularity;
  request_count = 0;
  iteration_count = 0;
  total_prompt_tokens = 0;
  hbm_hit_tokens = 0;
  ddr_hit_tokens = 0;
  miss_tokens = 0;
  total_kv_load_ms = 0;
  total_compute_wait_ms = 0;
  total_kv_load_wait_ms = 0;
  total_uncached_prefill_compute_ms = 0;
  total_unattributed_ttft_ms = 0;
  total_chunk_count = 0;
  total_load_event_count = 0;
  total_progressive_materialized_blocks = 0;
  total_progressive_materialized_tokens = 0;
  total_waiting_for_compute_count = 0;
  total_waiting_for_kv_load_count = 0;
  total_scheduled_chunk_count = 0;
  max_kv_transfer_queue_depth = 0;
  ttft_values = [];
  kv_load_values = [];
  compute_wait_values = [];
  kv_load_wait_values = [];
  uncached_prefill_compute_values = [];
}

-- `_record_timeline_values`
unfoldable pub check_timeline_values :
    TimelineMode → TtftGranularity → ScopeAccumulator → Result (Unit {0})
check_timeline_values mode granularity acc = do
  reject_if (not (mode_eq mode acc.timeline_mode))
  reject_if (not (granularity_eq granularity acc.ttft_granularity))
  ok tt

-- the accumulator with a request more
abbrev pub with_request : BatchAwareRequestMetrics → ScopeAccumulator → ScopeAccumulator
with_request m acc = record acc {
  request_count = acc.request_count + 1;
  total_prompt_tokens = acc.total_prompt_tokens + m.prompt_tokens;
  hbm_hit_tokens = acc.hbm_hit_tokens + m.hbm_hit_tokens;
  ddr_hit_tokens = acc.ddr_hit_tokens + m.ddr_hit_tokens;
  miss_tokens = acc.miss_tokens + m.miss_tokens;
  total_kv_load_ms = acc.total_kv_load_ms + m.kv_load_ms;
  total_compute_wait_ms = acc.total_compute_wait_ms + m.compute_wait_ms;
  total_kv_load_wait_ms = acc.total_kv_load_wait_ms + m.kv_load_wait_ms;
  total_uncached_prefill_compute_ms =
      acc.total_uncached_prefill_compute_ms + m.uncached_prefill_compute_ms;
  total_unattributed_ttft_ms = acc.total_unattributed_ttft_ms + m.unattributed_ttft_ms;
  total_chunk_count = acc.total_chunk_count + m.chunk_count;
  total_load_event_count = acc.total_load_event_count + m.load_event_count;
  total_progressive_materialized_blocks =
      acc.total_progressive_materialized_blocks + m.progressive_materialized_blocks;
  total_progressive_materialized_tokens =
      acc.total_progressive_materialized_tokens + m.progressive_materialized_tokens;
  ttft_values = acc.ttft_values ++ m.ttft_ms ∷ [];
  kv_load_values = acc.kv_load_values ++ m.kv_load_ms ∷ [];
  compute_wait_values = acc.compute_wait_values ++ m.compute_wait_ms ∷ [];
  kv_load_wait_values = acc.kv_load_wait_values ++ m.kv_load_wait_ms ∷ [];
  uncached_prefill_compute_values =
      acc.uncached_prefill_compute_values ++ m.uncached_prefill_compute_ms ∷ [];
}

unfoldable pub on_request : BatchAwareRequestMetrics → ScopeAccumulator → Result ScopeAccumulator
unfolding check_timeline_values
on_request m acc = do
  check_timeline_values m.timeline_mode m.ttft_granularity acc
  ok (with_request m acc)

-- the accumulator with an iteration more
abbrev pub with_iteration : IterationMetrics → ScopeAccumulator → ScopeAccumulator
with_iteration m acc = record acc {
  iteration_count = acc.iteration_count + 1;
  total_waiting_for_compute_count =
      acc.total_waiting_for_compute_count + m.waiting_for_compute_count;
  total_waiting_for_kv_load_count =
      acc.total_waiting_for_kv_load_count + m.waiting_for_kv_load_count;
  total_scheduled_chunk_count = acc.total_scheduled_chunk_count + m.scheduled_chunk_count;
  max_kv_transfer_queue_depth = max acc.max_kv_transfer_queue_depth m.kv_transfer_queue_depth_max;
}

unfoldable pub on_iteration : IterationMetrics → ScopeAccumulator → Result ScopeAccumulator
unfolding check_timeline_values
on_iteration m acc = do
  check_timeline_values m.timeline_mode m.ttft_granularity acc
  ok (with_iteration m acc)

unfoldable pub to_row :
    (divide : ℕ → ℕ → ℕ) (capacity : ℕ) (scope : Scope) (instance_uuid : String)
    (cache_event_count : ℕ)
    → ScopeAccumulator
    → Result CapacitySweepRow
unfolding percentile
to_row divide capacity scope instance_uuid cache_event_count acc = do
  let hits = acc.hbm_hit_tokens + acc.ddr_hit_tokens
  reject_if (not (hits + acc.miss_tokens == acc.total_prompt_tokens))
  p50_ttft ← percentile acc.ttft_values 50
  p90_ttft ← percentile acc.ttft_values 90
  p99_ttft ← percentile acc.ttft_values 99
  p50_kv_load ← percentile acc.kv_load_values 50
  p90_kv_load ← percentile acc.kv_load_values 90
  p99_kv_load ← percentile acc.kv_load_values 99
  p50_compute_wait ← percentile acc.compute_wait_values 50
  p90_compute_wait ← percentile acc.compute_wait_values 90
  p99_compute_wait ← percentile acc.compute_wait_values 99
  p50_kv_load_wait ← percentile acc.kv_load_wait_values 50
  p90_kv_load_wait ← percentile acc.kv_load_wait_values 90
  p99_kv_load_wait ← percentile acc.kv_load_wait_values 99
  p90_uncached ← percentile acc.uncached_prefill_compute_values 90
  ok (record {
    hbm_capacity_blocks = capacity;
    scope = scope;
    instance_uuid = instance_uuid;
    request_count = acc.request_count;
    iteration_count = acc.iteration_count;
    total_prompt_tokens = acc.total_prompt_tokens;
    hbm_hit_tokens = acc.hbm_hit_tokens;
    ddr_hit_tokens = acc.ddr_hit_tokens;
    miss_tokens = acc.miss_tokens;
    total_hit_tokens = hits;
    kv_hit_rate = safe_rate divide hits acc.total_prompt_tokens;
    hbm_hit_rate = safe_rate divide acc.hbm_hit_tokens acc.total_prompt_tokens;
    ddr_hit_rate = safe_rate divide acc.ddr_hit_tokens acc.total_prompt_tokens;
    p50_ttft_ms = p50_ttft;
    p90_ttft_ms = p90_ttft;
    p99_ttft_ms = p99_ttft;
    cache_event_count = cache_event_count;
    total_kv_load_ms = acc.total_kv_load_ms;
    avg_kv_load_ms = safe_rate divide acc.total_kv_load_ms acc.request_count;
    p50_kv_load_ms = p50_kv_load;
    p90_kv_load_ms = p90_kv_load;
    p99_kv_load_ms = p99_kv_load;
    timeline_mode = acc.timeline_mode;
    ttft_granularity = acc.ttft_granularity;
    total_compute_wait_ms = acc.total_compute_wait_ms;
    avg_compute_wait_ms = safe_rate divide acc.total_compute_wait_ms acc.request_count;
    p50_compute_wait_ms = p50_compute_wait;
    p90_compute_wait_ms = p90_compute_wait;
    p99_compute_wait_ms = p99_compute_wait;
    total_kv_load_wait_ms = acc.total_kv_load_wait_ms;
    avg_kv_load_wait_ms = safe_rate divide acc.total_kv_load_wait_ms acc.request_count;
    p50_kv_load_wait_ms = p50_kv_load_wait;
    p90_kv_load_wait_ms = p90_kv_load_wait;
    p99_kv_load_wait_ms = p99_kv_load_wait;
    total_uncached_prefill_compute_ms = acc.total_uncached_prefill_compute_ms;
    avg_uncached_prefill_compute_ms =
        safe_rate divide acc.total_uncached_prefill_compute_ms acc.request_count;
    p90_uncached_prefill_compute_ms = p90_uncached;
    total_unattributed_ttft_ms = acc.total_unattributed_ttft_ms;
    avg_unattributed_ttft_ms = safe_rate divide acc.total_unattributed_ttft_ms acc.request_count;
    total_chunk_count = acc.total_chunk_count;
    total_load_event_count = acc.total_load_event_count;
    total_progressive_materialized_blocks = acc.total_progressive_materialized_blocks;
    total_progressive_materialized_tokens = acc.total_progressive_materialized_tokens;
    total_waiting_for_compute_count = acc.total_waiting_for_compute_count;
    total_waiting_for_kv_load_count = acc.total_waiting_for_kv_load_count;
    total_scheduled_chunk_count = acc.total_scheduled_chunk_count;
    max_kv_transfer_queue_depth = acc.max_kv_transfer_queue_depth;
  })
