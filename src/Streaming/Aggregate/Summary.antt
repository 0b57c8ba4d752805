-- ===== src/Streaming/Aggregate/Summary.antt =====
-- The accumulator that has seen some metrics: what a request or an iteration more makes of it.
use infer_twin.Base.{
  ℕ, ◌+◌, List, [], ◌∷◌, ◌++◌, map, ◌≡◌, refl, ap, arith, max, length, length-append, sum_by,
  sum_by-append,
}
use infer_twin.Experiment.Rows.{max_by}
use infer_twin.Replay.Metrics.Build.{BatchAwareRequestMetrics, IterationMetrics}
use infer_twin.Replay.Timeline.{TimelineMode, TtftGranularity}
use infer_twin.Streaming.Aggregate.{ScopeAccumulator, with_request, with_iteration}

-- the accumulator that has seen these metrics
abbrev pub summary :
    TimelineMode
    → TtftGranularity
    → List BatchAwareRequestMetrics
    → List IterationMetrics
    → ScopeAccumulator
summary mode granularity rs is = record {
  timeline_mode = mode;
  ttft_granularity = granularity;
  request_count = length rs;
  iteration_count = length is;
  total_prompt_tokens = sum_by (λ m. m.prompt_tokens) rs;
  hbm_hit_tokens = sum_by (λ m. m.hbm_hit_tokens) rs;
  ddr_hit_tokens = sum_by (λ m. m.ddr_hit_tokens) rs;
  miss_tokens = sum_by (λ m. m.miss_tokens) rs;
  total_kv_load_ms = sum_by (λ m. m.kv_load_ms) rs;
  total_compute_wait_ms = sum_by (λ m. m.compute_wait_ms) rs;
  total_kv_load_wait_ms = sum_by (λ m. m.kv_load_wait_ms) rs;
  total_uncached_prefill_compute_ms = sum_by (λ m. m.uncached_prefill_compute_ms) rs;
  total_unattributed_ttft_ms = sum_by (λ m. m.unattributed_ttft_ms) rs;
  total_chunk_count = sum_by (λ m. m.chunk_count) rs;
  total_load_event_count = sum_by (λ m. m.load_event_count) rs;
  total_progressive_materialized_blocks = sum_by (λ m. m.progressive_materialized_blocks) rs;
  total_progressive_materialized_tokens = sum_by (λ m. m.progressive_materialized_tokens) rs;
  total_waiting_for_compute_count = sum_by (λ m. m.waiting_for_compute_count) is;
  total_waiting_for_kv_load_count = sum_by (λ m. m.waiting_for_kv_load_count) is;
  total_scheduled_chunk_count = sum_by (λ m. m.scheduled_chunk_count) is;
  max_kv_transfer_queue_depth = max_by (λ m. m.kv_transfer_queue_depth_max) is;
  ttft_values = map (λ m. m.ttft_ms) rs;
  kv_load_values = map (λ m. m.kv_load_ms) rs;
  compute_wait_values = map (λ m. m.compute_wait_ms) rs;
  kv_load_wait_values = map (λ m. m.kv_load_wait_ms) rs;
  uncached_prefill_compute_values = map (λ m. m.uncached_prefill_compute_ms) rs;
}

module _ {A : Type 0} where
  length-snoc : (xs : List A) (x : A) → length xs + 1 ≡ length (xs ++ x ∷ [])
  length-snoc xs x = omega (arith, length-append xs (x ∷ []))

  sum-snoc : (f : A → ℕ) (xs : List A) (x : A) → sum_by f xs + f x ≡ sum_by f (xs ++ x ∷ [])
  sum-snoc f xs x = omega (arith, sum_by-append f xs (x ∷ []))

  map-snoc : (f : A → ℕ) (xs : List A) (x : A) → map f xs ++ f x ∷ [] ≡ map f (xs ++ x ∷ [])
  map-snoc f [] x = refl
  map-snoc f (y ∷ xs) x = ap (◌∷◌ (f y)) (map-snoc f xs x)

  max-snoc : (f : A → ℕ) (xs : List A) (x : A) → max (max_by f xs) (f x) ≡ max_by f (xs ++ x ∷ [])
  max-snoc f [] x = omega arith
  max-snoc f (y ∷ xs) x = omega (arith, max-snoc f xs x)

module _ (mode : TimelineMode) (granularity : TtftGranularity) (rs : List BatchAwareRequestMetrics)
    (is : List IterationMetrics) where
  pub with_request-summary :
      (m : BatchAwareRequestMetrics)
      → with_request m (summary mode granularity rs is) ≡ summary mode granularity (rs ++ m ∷ []) is
  with_request-summary m i = record {
    timeline_mode = mode;
    ttft_granularity = granularity;
    request_count = length-snoc rs m i;
    iteration_count = length is;
    total_prompt_tokens = sum-snoc (λ x. x.prompt_tokens) rs m i;
    hbm_hit_tokens = sum-snoc (λ x. x.hbm_hit_tokens) rs m i;
    ddr_hit_tokens = sum-snoc (λ x. x.ddr_hit_tokens) rs m i;
    miss_tokens = sum-snoc (λ x. x.miss_tokens) rs m i;
    total_kv_load_ms = sum-snoc (λ x. x.kv_load_ms) rs m i;
    total_compute_wait_ms = sum-snoc (λ x. x.compute_wait_ms) rs m i;
    total_kv_load_wait_ms = sum-snoc (λ x. x.kv_load_wait_ms) rs m i;
    total_uncached_prefill_compute_ms = sum-snoc (λ x. x.uncached_prefill_compute_ms) rs m i;
    total_unattributed_ttft_ms = sum-snoc (λ x. x.unattributed_ttft_ms) rs m i;
    total_chunk_count = sum-snoc (λ x. x.chunk_count) rs m i;
    total_load_event_count = sum-snoc (λ x. x.load_event_count) rs m i;
    total_progressive_materialized_blocks =
        sum-snoc (λ x. x.progressive_materialized_blocks) rs m i;
    total_progressive_materialized_tokens =
        sum-snoc (λ x. x.progressive_materialized_tokens) rs m i;
    total_waiting_for_compute_count = sum_by (λ x. x.waiting_for_compute_count) is;
    total_waiting_for_kv_load_count = sum_by (λ x. x.waiting_for_kv_load_count) is;
    total_scheduled_chunk_count = sum_by (λ x. x.scheduled_chunk_count) is;
    max_kv_transfer_queue_depth = max_by (λ x. x.kv_transfer_queue_depth_max) is;
    ttft_values = map-snoc (λ x. x.ttft_ms) rs m i;
    kv_load_values = map-snoc (λ x. x.kv_load_ms) rs m i;
    compute_wait_values = map-snoc (λ x. x.compute_wait_ms) rs m i;
    kv_load_wait_values = map-snoc (λ x. x.kv_load_wait_ms) rs m i;
    uncached_prefill_compute_values = map-snoc (λ x. x.uncached_prefill_compute_ms) rs m i;
  }

  pub with_iteration-summary :
      (m : IterationMetrics)
      → with_iteration m (summary mode granularity rs is)
        ≡ summary mode granularity rs (is ++ m ∷ [])
  with_iteration-summary m i = record (summary mode granularity rs is) {
    iteration_count = length-snoc is m i;
    total_waiting_for_compute_count = sum-snoc (λ x. x.waiting_for_compute_count) is m i;
    total_waiting_for_kv_load_count = sum-snoc (λ x. x.waiting_for_kv_load_count) is m i;
    total_scheduled_chunk_count = sum-snoc (λ x. x.scheduled_chunk_count) is m i;
    max_kv_transfer_queue_depth = max-snoc (λ x. x.kv_transfer_queue_depth_max) is m i;
  }
