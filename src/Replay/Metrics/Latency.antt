-- ===== src/Replay/Metrics/Latency.antt =====
-- src/infertwin/replay/metrics.py: the parts of an iteration's latency, and how its requests share them.
-- `divide` is the division of floating point numbers.
pub mod Sums
pub mod Laws
use infer_twin.Base.Dict.{lookup, insert}
use infer_twin.Base.{
  ℕ, ◌*◌, String, Bool, ◌&&◌, List, [], ◌∷◌, Option, none, some, Result, ok, raise, value_error,
  ◌>>=◌, if◌then◌else◌, ltb,
}
use infer_twin.Latency.Schema.{Detail, amount, negative, text, flag, LatencyResult}
use infer_twin.Scheduler.BatchShape.{
  ScheduledSlice, BatchShape, batch_size, scheduled_prefill_tokens, kv_load_bytes, kv_load_tokens,
}

-- The check of `__post_init__` always passes.
pub record IterationLatencyBreakdown : Type 0 where
  pub prefill_compute_ms : ℕ
  pub kv_load_ms : ℕ
  pub queue_ms : ℕ

abbrev pub detail_value : ℕ → Option Detail → Result ℕ
detail_value default none = ok default
detail_value default (some (amount n)) = ok n
detail_value default (some _) = raise value_error

-- `_detail_float`
unfoldable pub detail_float : LatencyResult → String → ℕ → Result ℕ
detail_float latency key default = detail_value default (lookup key latency.details)

unfoldable pub latency_breakdown_from_result : LatencyResult → Result IterationLatencyBreakdown
unfolding detail_float
latency_breakdown_from_result latency = do
  prefill ← detail_float latency "ttft_ms" latency.duration_ms
  kv_load ← detail_float latency "kv_load_ms" 0
  queue ← detail_float latency "queue_ms" 0
  ok (record { prefill_compute_ms = prefill; kv_load_ms = kv_load; queue_ms = queue })

module _ (divide : ℕ → ℕ → ℕ) (shape : BatchShape) (breakdown : IterationLatencyBreakdown) where
  -- one request's share of each part
  unfoldable pub prefill_share : ScheduledSlice → ℕ
  prefill_share s =
      if ltb 0 (scheduled_prefill_tokens shape) && ltb 0 s.scheduled_prefill_tokens
      then divide (breakdown.prefill_compute_ms * s.scheduled_prefill_tokens)
          (scheduled_prefill_tokens shape)
      else 0

  unfoldable pub kv_load_share : ScheduledSlice → ℕ
  kv_load_share s =
      if ltb 0 (kv_load_bytes shape) && ltb 0 s.kv_load_bytes
      then divide (breakdown.kv_load_ms * s.kv_load_bytes) (kv_load_bytes shape)
      else if ltb 0 (kv_load_tokens shape) && ltb 0 s.kv_load_tokens
      then divide (breakdown.kv_load_ms * s.kv_load_tokens) (kv_load_tokens shape)
      else 0

  unfoldable pub queue_share : ℕ
  queue_share = if ltb 0 (batch_size shape) then divide breakdown.queue_ms (batch_size shape) else 0

  unfoldable pub contribution : ScheduledSlice → IterationLatencyBreakdown
  unfolding prefill_share kv_load_share queue_share
  contribution s = record {
    prefill_compute_ms = prefill_share s;
    kv_load_ms = kv_load_share s;
    queue_ms = queue_share;
  }

  -- the loop over the slices; a later slice of the same request replaces the share of an earlier one
  unfoldable pub collect_contributions :
      List ScheduledSlice
      → List (String × IterationLatencyBreakdown)
      → List (String × IterationLatencyBreakdown)
  collect_contributions [] contributions = contributions
  collect_contributions (s ∷ slices) contributions =
      collect_contributions slices (insert s.request_id (contribution s) contributions)

unfoldable pub split_iteration_latency_contributions :
    (divide : ℕ → ℕ → ℕ)
    → BatchShape
    → LatencyResult
    → Result (List (String × IterationLatencyBreakdown))
unfolding latency_breakdown_from_result collect_contributions
split_iteration_latency_contributions divide shape latency = do
  breakdown ← latency_breakdown_from_result latency
  ok (collect_contributions divide shape breakdown shape.request_slices [])
