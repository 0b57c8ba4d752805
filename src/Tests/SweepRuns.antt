-- ===== src/Tests/SweepRuns.antt =====
-- The rows of a sweep, for the reports of two instances.
use infer_twin.Base.{
  ◌>>=◌, map, Result, ℕ, ◌+◌, ◌/◌, String, List, [], ◌∷◌, Result, ok, ◌≡◌, refl, false,
}
use infer_twin.Experiment.Rows.{trace, aggregate_row}
use infer_twin.Replay.Metrics.Build.{BatchAwareRequestMetrics, IterationMetrics}
use infer_twin.Replay.Timeline.{progressive, chunk}
use infer_twin.Streaming.Aggregate.Laws.{
  Report, request_done, iteration_done, feed, requests_of, iterations_of, feed-aggregate_row,
}
use infer_twin.Streaming.Aggregate.{ScopeAccumulator, new_accumulator, to_row}
use infer_twin.Tests.ReplayRuns.{key}
use infer_twin.Streaming.Scopes.{Aggregator, new_aggregator, accumulator, build_rows}
use infer_twin.Streaming.Scopes.Laws.{feed_scopes, of_reporter, RowOf, feed_scopes-aggregate_row}
use infer_twin.Experiment.Rows.{instance_scope}

abbrev request_metric : (id instance : String) (prompt miss ttft : ℕ) → BatchAwareRequestMetrics
request_metric id instance prompt miss ttft = record {
  request_id = id;
  tenant_id = "t";
  instance_uuid = instance;
  model = "m";
  tokenizer_profile = "p";
  arrival_time_ms = 3;
  first_scheduled_time_ms = 5;
  finish_time_ms = 3 + ttft;
  scheduler_wait_ms = 2;
  ttft_ms = ttft;
  prompt_tokens = prompt;
  prompt_blocks = 3;
  hbm_hit_tokens = 4;
  ddr_hit_tokens = 0;
  miss_tokens = miss;
  effective_hit_rate = 0;
  scheduled_iteration_count = 1;
  kv_load_tokens = 0;
  kv_load_bytes = 0;
  kv_load_ms = 0;
  prefill_compute_ms = 9;
  queue_ms = 0;
  timeline_mode = progressive;
  ttft_granularity = chunk;
  compute_wait_ms = 2;
  kv_load_wait_ms = 0;
  uncached_prefill_compute_ms = 9;
  unattributed_ttft_ms = 0;
  chunk_count = 1;
  load_event_count = 0;
  progressive_materialized_blocks = 1;
  progressive_materialized_tokens = 4;
}

abbrev iteration_metric : IterationMetrics
iteration_metric = record {
  instance_uuid = "i1";
  iteration_id = 0;
  start_time_ms = 5;
  finish_time_ms = 14;
  duration_ms = 9;
  batch_size = 1;
  scheduled_prefill_tokens = 7;
  scheduled_decode_tokens = 0;
  max_query_len = 7;
  total_context_tokens = 4;
  backend = "formula";
  shape_key = key;
  memoized = false;
  request_ids = "r1" ∷ [];
  kv_load_tokens = 0;
  kv_load_bytes = 0;
  kv_load_request_count = 0;
  kv_load_ms = 0;
  prefill_compute_ms = 9;
  queue_ms = 0;
  timeline_mode = progressive;
  ttft_granularity = chunk;
  waiting_for_compute_count = 1;
  waiting_for_kv_load_count = 0;
  scheduled_chunk_count = 1;
  kv_transfer_queue_depth_max = 2;
  compute_wait_ms = 9;
  kv_load_wait_ms = 0;
  unattributed_ttft_ms = 0;
  progressive_materialized_blocks = 1;
  progressive_materialized_tokens = 4;
}

abbrev reports : List Report
reports =
    request_done (request_metric "r1" "i1" 11 7 11)
    ∷ iteration_done iteration_metric
    ∷ request_done (request_metric "r2" "i2" 9 5 8)
    ∷ []

feed-aggregate_row_example :
    (acc : ScopeAccumulator) × (feed reports (new_accumulator progressive chunk) ≡ ok acc)
    × (to_row ◌/◌ 16 trace "" 5 acc
        ≡ aggregate_row ◌/◌ 16 trace ""
            (requests_of reports)
            (iterations_of reports)
            5
            progressive
            chunk)
feed-aggregate_row_example =
    feed-aggregate_row ◌/◌ 16 trace "" 5 progressive chunk reports
      ((refl, refl), ((refl, refl), ((refl, refl), tt)))

feed_scopes-aggregate_row_example :
    (a : Aggregator) × (feed_scopes reports (new_aggregator progressive chunk) ≡ ok a)
    × RowOf ◌/◌ 16 trace "" 5 progressive chunk reports a.trace
    × ((uuid : String)
        → RowOf ◌/◌ 16 instance_scope uuid 0 progressive chunk
            (of_reporter uuid reports)
            (accumulator uuid a))
feed_scopes-aggregate_row_example =
    feed_scopes-aggregate_row ◌/◌ 16 5 progressive chunk reports
      ((refl, refl), ((refl, refl), ((refl, refl), tt))) ((refl, refl), (refl, ((refl, refl), tt)))

-- the names and counts of the rows
abbrev row_names : Result (List (String × ℕ × ℕ × ℕ))
unfolding build_rows feed_scopes
row_names = do
  a ← feed_scopes reports (new_aggregator progressive chunk)
  rows ← build_rows ◌/◌ 16 5 a
  ok (map (λ r. (r.instance_uuid, r.request_count, r.iteration_count, r.p50_ttft_ms)) rows)
