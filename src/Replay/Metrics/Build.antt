-- ===== src/Replay/Metrics/Build.antt =====
-- src/infertwin/replay/metrics.py: the records of a finished request and of an iteration. `divide` is the
-- division of floating point numbers, and `epsilon` the tolerance of the composition of times.
use infer_twin.Base.{
  ℕ, ◌+◌, String, Bool, List, Option, none, some, Result, ok, raise, value_error, ◌>>=◌,
  if◌then◌else◌, ltb, leb, length, map, sum_by,
}
use infer_twin.Cache.EventSink.{CacheEventStats}
use infer_twin.Cache.Events.{CacheEvent}
use infer_twin.Latency.Schema.{LatencyResult, ShapeKey}
use infer_twin.Replay.Iteration.{is_progressive}
use infer_twin.Replay.Metrics.Latency.{latency_breakdown_from_result}
use infer_twin.Replay.Metrics.Lookup.{LookupMetrics}
use infer_twin.Replay.Timeline.{TimelineMode, TtftGranularity, iteration, chunk}
use infer_twin.Replay.Ttft.{compose}
use infer_twin.Request.Simulation.{SimulationRequest}
use infer_twin.Scheduler.BatchShape.{
  BatchShape, batch_size, scheduled_prefill_tokens, max_query_len, total_context_tokens,
  kv_load_tokens, kv_load_bytes, kv_load_request_count,
}
use infer_twin.Scheduler.State.{RequestState}

pub record BatchAwareRequestMetrics : Type 0 where
  pub request_id : String
  pub tenant_id : String
  pub instance_uuid : String
  pub model : String
  pub tokenizer_profile : String
  pub arrival_time_ms : ℕ
  pub first_scheduled_time_ms : ℕ
  pub finish_time_ms : ℕ
  pub scheduler_wait_ms : ℕ
  pub ttft_ms : ℕ
  pub prompt_tokens : ℕ
  pub prompt_blocks : ℕ
  pub hbm_hit_tokens : ℕ
  pub ddr_hit_tokens : ℕ
  pub miss_tokens : ℕ
  pub effective_hit_rate : ℕ
  pub scheduled_iteration_count : ℕ
  pub kv_load_tokens : ℕ
  pub kv_load_bytes : ℕ
  pub kv_load_ms : ℕ
  pub prefill_compute_ms : ℕ
  pub queue_ms : ℕ
  pub timeline_mode : TimelineMode
  pub ttft_granularity : TtftGranularity
  pub compute_wait_ms : ℕ
  pub kv_load_wait_ms : ℕ
  pub uncached_prefill_compute_ms : ℕ
  pub unattributed_ttft_ms : ℕ
  pub chunk_count : ℕ
  pub load_event_count : ℕ
  pub progressive_materialized_blocks : ℕ
  pub progressive_materialized_tokens : ℕ

-- `shape_key` is the key in place of its text.
pub record IterationMetrics : Type 0 where
  pub instance_uuid : String
  pub iteration_id : ℕ
  pub start_time_ms : ℕ
  pub finish_time_ms : ℕ
  pub duration_ms : ℕ
  pub batch_size : ℕ
  pub scheduled_prefill_tokens : ℕ
  pub scheduled_decode_tokens : ℕ
  pub max_query_len : ℕ
  pub total_context_tokens : ℕ
  pub backend : String
  pub shape_key : ShapeKey
  pub memoized : Bool
  pub request_ids : List String
  pub kv_load_tokens : ℕ
  pub kv_load_bytes : ℕ
  pub kv_load_request_count : ℕ
  pub kv_load_ms : ℕ
  pub prefill_compute_ms : ℕ
  pub queue_ms : ℕ
  pub timeline_mode : TimelineMode
  pub ttft_granularity : TtftGranularity
  pub waiting_for_compute_count : ℕ
  pub waiting_for_kv_load_count : ℕ
  pub scheduled_chunk_count : ℕ
  pub kv_transfer_queue_depth_max : ℕ
  pub compute_wait_ms : ℕ
  pub kv_load_wait_ms : ℕ
  pub unattributed_ttft_ms : ℕ
  pub progressive_materialized_blocks : ℕ
  pub progressive_materialized_tokens : ℕ

pub record BatchAwareReplayResult : Type 0 where
  pub request_metrics : List BatchAwareRequestMetrics
  pub iteration_metrics : List IterationMetrics
  pub cache_event_stats : CacheEventStats
  pub cache_events : List CacheEvent

-- `_required_time`
abbrev pub required_time : Option ℕ → Result ℕ
required_time none = raise value_error
required_time (some t) = ok t

-- `_safe_rate`
unfoldable pub safe_rate : (divide : ℕ → ℕ → ℕ) → (numerator denominator : ℕ) → ℕ
safe_rate divide numerator denominator =
    if leb denominator 0 then 0 else divide numerator denominator

unfoldable pub build_request_metrics :
    (divide : ℕ → ℕ → ℕ) (epsilon : ℕ)
    → SimulationRequest
    → RequestState
    → LookupMetrics
    → Result BatchAwareRequestMetrics
unfolding safe_rate
build_request_metrics divide epsilon request s lookup = do
  first_scheduled ← required_time s.first_scheduled_time_ms
  finish_time ← required_time s.finish_time_ms
  composition ← compose epsilon request s finish_time first_scheduled
  ok (record {
    request_id = request.request_id;
    tenant_id = request.tenant_id;
    instance_uuid = request.instance_uuid;
    model = request.model;
    tokenizer_profile = request.tokenizer_profile;
    arrival_time_ms = request.start_time_ms;
    first_scheduled_time_ms = first_scheduled;
    finish_time_ms = finish_time;
    scheduler_wait_ms = composition.scheduler_wait_ms;
    ttft_ms = composition.ttft_ms;
    prompt_tokens = request.prompt_tokens;
    prompt_blocks = length request.prompt_blocks;
    hbm_hit_tokens = lookup.hbm_hit_tokens;
    ddr_hit_tokens = lookup.ddr_hit_tokens;
    miss_tokens = lookup.miss_tokens;
    effective_hit_rate =
        safe_rate divide (lookup.hbm_hit_tokens + lookup.ddr_hit_tokens) request.prompt_tokens;
    scheduled_iteration_count = s.scheduled_iteration_count;
    kv_load_tokens = lookup.ddr_hit_tokens;
    kv_load_bytes = lookup.ddr_hit_bytes;
    kv_load_ms = s.kv_load_ms;
    prefill_compute_ms = s.prefill_compute_ms;
    queue_ms = s.queue_ms;
    timeline_mode = composition.timeline_mode;
    ttft_granularity = composition.ttft_granularity;
    compute_wait_ms = composition.compute_wait_ms;
    kv_load_wait_ms = composition.kv_load_wait_ms;
    uncached_prefill_compute_ms = composition.uncached_prefill_compute_ms;
    unattributed_ttft_ms = composition.unattributed_ttft_ms;
    chunk_count = composition.chunk_count;
    load_event_count = composition.load_event_count;
    progressive_materialized_blocks = s.progressive_materialized_blocks;
    progressive_materialized_tokens = s.progressive_materialized_tokens;
  })

-- What the loop adds to an iteration's metrics; each is 0 where it is not given.
pub record IterationAccounting : Type 0 where
  pub waiting_for_compute_count : ℕ
  pub waiting_for_kv_load_count : ℕ
  pub compute_wait_ms : ℕ
  pub kv_load_wait_ms : ℕ
  pub kv_transfer_queue_depth_max : ℕ
  pub progressive_materialized_blocks : ℕ
  pub progressive_materialized_tokens : ℕ

-- the slices that compute tokens
abbrev pub chunks_of : BatchShape → ℕ
chunks_of shape =
    sum_by (λ s. if ltb 0 s.scheduled_prefill_tokens then 1 else 0) shape.request_slices

unfoldable pub build_iteration_metrics :
    BatchShape
    → LatencyResult
    → (finish_time : ℕ) → TimelineMode
    → IterationAccounting
    → Result IterationMetrics
build_iteration_metrics shape latency finish_time mode accounting = do
  breakdown ← latency_breakdown_from_result latency
  ok (record {
    instance_uuid = shape.instance_uuid;
    iteration_id = shape.iteration_id;
    start_time_ms = shape.start_time_ms;
    finish_time_ms = finish_time;
    duration_ms = latency.duration_ms;
    batch_size = batch_size shape;
    scheduled_prefill_tokens = scheduled_prefill_tokens shape;
    scheduled_decode_tokens = shape.scheduled_decode_tokens;
    max_query_len = max_query_len shape;
    total_context_tokens = total_context_tokens shape;
    backend = latency.backend;
    shape_key = latency.shape_key;
    memoized = latency.memoized;
    request_ids = map (λ s. s.request_id) shape.request_slices;
    kv_load_tokens = kv_load_tokens shape;
    kv_load_bytes = kv_load_bytes shape;
    kv_load_request_count = kv_load_request_count shape;
    kv_load_ms = breakdown.kv_load_ms;
    prefill_compute_ms = breakdown.prefill_compute_ms;
    queue_ms = breakdown.queue_ms;
    timeline_mode = mode;
    ttft_granularity = if is_progressive mode then chunk else iteration;
    waiting_for_compute_count = accounting.waiting_for_compute_count;
    waiting_for_kv_load_count = accounting.waiting_for_kv_load_count;
    scheduled_chunk_count = if is_progressive mode then chunks_of shape else 0;
    kv_transfer_queue_depth_max = accounting.kv_transfer_queue_depth_max;
    compute_wait_ms = accounting.compute_wait_ms;
    kv_load_wait_ms = accounting.kv_load_wait_ms;
    unattributed_ttft_ms = 0;
    progressive_materialized_blocks = accounting.progressive_materialized_blocks;
    progressive_materialized_tokens = accounting.progressive_materialized_tokens;
  })
