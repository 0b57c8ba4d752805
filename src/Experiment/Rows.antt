-- ===== src/Experiment/Rows.antt =====
-- src/infertwin/experiment/sweep.py: one row of a capacity sweep, from the metrics of a replay. The
-- percentages are whole numbers, and `divide` is the division of floating point numbers.
use infer_twin.Base.Order.{str_le, sorted}
use infer_twin.Base.{
  ℕ, ◌+◌, ◌-◌, ◌*◌, ◌/◌, String, str_eq, Bool, true, false, ◌&&◌, not, List, [], ◌∷◌, ◌++◌, map,
  Option, none, some, Result, ok, raise, value_error, reject_if, ◌>>=◌, ◌>>◌, if◌then◌else◌, leb,
  ltb, ◌==◌, max, min, length, sum_by, get_elem?,
}
use infer_twin.Replay.Metrics.Build.{BatchAwareRequestMetrics, IterationMetrics, safe_rate}
use infer_twin.Replay.Timeline.{
  TimelineMode, legacy, progressive, other_mode, TtftGranularity, iteration, chunk,
}

pub data Scope : Type 0 where
  trace instance_scope : Scope

pub record CapacitySweepRow : Type 0 where
  pub hbm_capacity_blocks : ℕ
  pub scope : Scope
  pub instance_uuid : String
  pub request_count : ℕ
  pub iteration_count : ℕ
  pub total_prompt_tokens : ℕ
  pub hbm_hit_tokens : ℕ
  pub ddr_hit_tokens : ℕ
  pub miss_tokens : ℕ
  pub total_hit_tokens : ℕ
  pub kv_hit_rate : ℕ
  pub hbm_hit_rate : ℕ
  pub ddr_hit_rate : ℕ
  pub p50_ttft_ms : ℕ
  pub p90_ttft_ms : ℕ
  pub p99_ttft_ms : ℕ
  pub cache_event_count : ℕ
  pub total_kv_load_ms : ℕ
  pub avg_kv_load_ms : ℕ
  pub p50_kv_load_ms : ℕ
  pub p90_kv_load_ms : ℕ
  pub p99_kv_load_ms : ℕ
  pub timeline_mode : TimelineMode
  pub ttft_granularity : TtftGranularity
  pub total_compute_wait_ms : ℕ
  pub avg_compute_wait_ms : ℕ
  pub p50_compute_wait_ms : ℕ
  pub p90_compute_wait_ms : ℕ
  pub p99_compute_wait_ms : ℕ
  pub total_kv_load_wait_ms : ℕ
  pub avg_kv_load_wait_ms : ℕ
  pub p50_kv_load_wait_ms : ℕ
  pub p90_kv_load_wait_ms : ℕ
  pub p99_kv_load_wait_ms : ℕ
  pub total_uncached_prefill_compute_ms : ℕ
  pub avg_uncached_prefill_compute_ms : ℕ
  pub p90_uncached_prefill_compute_ms : ℕ
  pub total_unattributed_ttft_ms : ℕ
  pub avg_unattributed_ttft_ms : ℕ
  pub total_chunk_count : ℕ
  pub total_load_event_count : ℕ
  pub total_progressive_materialized_blocks : ℕ
  pub total_progressive_materialized_tokens : ℕ
  pub total_waiting_for_compute_count : ℕ
  pub total_waiting_for_kv_load_count : ℕ
  pub total_scheduled_chunk_count : ℕ
  pub max_kv_transfer_queue_depth : ℕ

-- `math.ceil((p / 100) * n)`
abbrev pub rank_of : (p n : ℕ) → ℕ
rank_of p n = (p * n + 99) / 100

abbrev pub or_zero : Option ℕ → ℕ
or_zero none = 0
or_zero (some n) = n

-- `percentile`; `max(rank - 1, 0)` is the subtraction of natural numbers, and the index is in the list
unfoldable pub percentile : List ℕ → (p : ℕ) → Result ℕ
percentile [] p = ok 0
percentile (v ∷ vs) p = do
  reject_if (ltb 100 p)
  let values = sorted leb (v ∷ vs)
  ok (or_zero (get_elem? values (min (rank_of p (length values) - 1) (length values - 1))))

-- `max(…, default=0)`
abbrev pub max_by {ℓ} : {A : Type ℓ} → (A → ℕ) → List A → ℕ
max_by f [] = 0
max_by f (x ∷ xs) = max (f x) (max_by f xs)

-- the equality of two texts, and whether one is empty
abbrev pub mode_eq : TimelineMode → TimelineMode → Bool
mode_eq legacy legacy = true
mode_eq progressive progressive = true
mode_eq (other_mode a) (other_mode b) = str_eq a b
mode_eq _ _ = false

abbrev pub mode_blank : TimelineMode → Bool
mode_blank (other_mode name) = str_eq name ""
mode_blank _ = false

abbrev pub granularity_eq : TtftGranularity → TtftGranularity → Bool
granularity_eq iteration iteration = true
granularity_eq chunk chunk = true
granularity_eq _ _ = false

abbrev pub granularity_blank : TtftGranularity → Bool
granularity_blank g = false

module _ {A : Type 0} (eq : A → A → Bool) (blank : A → Bool) where
  abbrev pub not_blank : List A → List A
  not_blank [] = []
  not_blank (v ∷ vs) = if blank v then not_blank vs else v ∷ not_blank vs

  abbrev pub all_eq : A → List A → Bool
  all_eq v [] = true
  all_eq v (w ∷ ws) = eq w v && all_eq v ws

  abbrev pub only_value : A → List A → Result A
  only_value configured [] = ok configured
  only_value configured (v ∷ vs) = if all_eq v vs then ok v else raise value_error

  -- `_resolve_metric_string`: the one value that is not empty, or the configured one
  unfoldable pub resolve_metric_string : A → List A → Result A
  resolve_metric_string configured values = only_value configured (not_blank values)

-- `_aggregate_row`
unfoldable pub aggregate_row :
    (divide : ℕ → ℕ → ℕ) (capacity : ℕ) (scope : Scope) (instance_uuid : String)
    → List BatchAwareRequestMetrics
    → List IterationMetrics
    → (cache_event_count : ℕ) → TimelineMode
    → TtftGranularity
    → Result CapacitySweepRow
unfolding percentile resolve_metric_string
aggregate_row divide capacity scope instance_uuid rs is cache_event_count mode granularity = do
  let prompt = sum_by (λ m. m.prompt_tokens) rs
  let hbm = sum_by (λ m. m.hbm_hit_tokens) rs
  let ddr = sum_by (λ m. m.ddr_hit_tokens) rs
  let miss = sum_by (λ m. m.miss_tokens) rs
  reject_if (not (hbm + ddr + miss == prompt))
  let kv_load = sum_by (λ m. m.kv_load_ms) rs
  let compute_wait = sum_by (λ m. m.compute_wait_ms) rs
  let kv_load_wait = sum_by (λ m. m.kv_load_wait_ms) rs
  let uncached = sum_by (λ m. m.uncached_prefill_compute_ms) rs
  let unattributed = sum_by (λ m. m.unattributed_ttft_ms) rs
  timeline_mode ←
      resolve_metric_string mode_eq mode_blank mode
        (map (λ m. m.timeline_mode) rs ++ map (λ m. m.timeline_mode) is)
  ttft_granularity ←
      resolve_metric_string granularity_eq granularity_blank granularity
        (map (λ m. m.ttft_granularity) rs ++ map (λ m. m.ttft_granularity) is)
  p50_ttft ← percentile (map (λ m. m.ttft_ms) rs) 50
  p90_ttft ← percentile (map (λ m. m.ttft_ms) rs) 90
  p99_ttft ← percentile (map (λ m. m.ttft_ms) rs) 99
  p50_kv_load ← percentile (map (λ m. m.kv_load_ms) rs) 50
  p90_kv_load ← percentile (map (λ m. m.kv_load_ms) rs) 90
  p99_kv_load ← percentile (map (λ m. m.kv_load_ms) rs) 99
  p50_compute_wait ← percentile (map (λ m. m.compute_wait_ms) rs) 50
  p90_compute_wait ← percentile (map (λ m. m.compute_wait_ms) rs) 90
  p99_compute_wait ← percentile (map (λ m. m.compute_wait_ms) rs) 99
  p50_kv_load_wait ← percentile (map (λ m. m.kv_load_wait_ms) rs) 50
  p90_kv_load_wait ← percentile (map (λ m. m.kv_load_wait_ms) rs) 90
  p99_kv_load_wait ← percentile (map (λ m. m.kv_load_wait_ms) rs) 99
  p90_uncached ← percentile (map (λ m. m.uncached_prefill_compute_ms) rs) 90
  ok (record {
    hbm_capacity_blocks = capacity;
    scope = scope;
    instance_uuid = instance_uuid;
    request_count = length rs;
    iteration_count = length is;
    total_prompt_tokens = prompt;
    hbm_hit_tokens = hbm;
    ddr_hit_tokens = ddr;
    miss_tokens = miss;
    total_hit_tokens = hbm + ddr;
    kv_hit_rate = safe_rate divide (hbm + ddr) prompt;
    hbm_hit_rate = safe_rate divide hbm prompt;
    ddr_hit_rate = safe_rate divide ddr prompt;
    p50_ttft_ms = p50_ttft;
    p90_ttft_ms = p90_ttft;
    p99_ttft_ms = p99_ttft;
    cache_event_count = cache_event_count;
    total_kv_load_ms = kv_load;
    avg_kv_load_ms = safe_rate divide kv_load (length rs);
    p50_kv_load_ms = p50_kv_load;
    p90_kv_load_ms = p90_kv_load;
    p99_kv_load_ms = p99_kv_load;
    timeline_mode = timeline_mode;
    ttft_granularity = ttft_granularity;
    total_compute_wait_ms = compute_wait;
    avg_compute_wait_ms = safe_rate divide compute_wait (length rs);
    p50_compute_wait_ms = p50_compute_wait;
    p90_compute_wait_ms = p90_compute_wait;
    p99_compute_wait_ms = p99_compute_wait;
    total_kv_load_wait_ms = kv_load_wait;
    avg_kv_load_wait_ms = safe_rate divide kv_load_wait (length rs);
    p50_kv_load_wait_ms = p50_kv_load_wait;
    p90_kv_load_wait_ms = p90_kv_load_wait;
    p99_kv_load_wait_ms = p99_kv_load_wait;
    total_uncached_prefill_compute_ms = uncached;
    avg_uncached_prefill_compute_ms = safe_rate divide uncached (length rs);
    p90_uncached_prefill_compute_ms = p90_uncached;
    total_unattributed_ttft_ms = unattributed;
    avg_unattributed_ttft_ms = safe_rate divide unattributed (length rs);
    total_chunk_count = sum_by (λ m. m.chunk_count) rs;
    total_load_event_count = sum_by (λ m. m.load_event_count) rs;
    total_progressive_materialized_blocks = sum_by (λ m. m.progressive_materialized_blocks) rs;
    total_progressive_materialized_tokens = sum_by (λ m. m.progressive_materialized_tokens) rs;
    total_waiting_for_compute_count = sum_by (λ m. m.waiting_for_compute_count) is;
    total_waiting_for_kv_load_count = sum_by (λ m. m.waiting_for_kv_load_count) is;
    total_scheduled_chunk_count = sum_by (λ m. m.scheduled_chunk_count) is;
    max_kv_transfer_queue_depth = max_by (λ m. m.kv_transfer_queue_depth_max) is;
  })

-- `_row_sort_key`: the capacity, the whole trace before the instances, the name
abbrev pub scope_order : Scope → ℕ
scope_order trace = 0
scope_order instance_scope = 1

abbrev pub row_before : CapacitySweepRow → CapacitySweepRow → Bool
row_before a b =
    if ltb a.hbm_capacity_blocks b.hbm_capacity_blocks
    then true
    else if ltb b.hbm_capacity_blocks a.hbm_capacity_blocks
    then false
    else if ltb (scope_order a.scope) (scope_order b.scope)
    then true
    else if ltb (scope_order b.scope) (scope_order a.scope)
    then false
    else str_le a.instance_uuid b.instance_uuid

unfoldable pub sort_capacity_rows : List CapacitySweepRow → List CapacitySweepRow
unfolding sorted
sort_capacity_rows rows = sorted row_before rows
