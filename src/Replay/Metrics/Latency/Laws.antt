-- ===== src/Replay/Metrics/Latency/Laws.antt =====
-- The requests' shares of an iteration's latency make up the latency, up to rounding.
use infer_twin.Base.Dict.{contains, keys}
use infer_twin.Base.{
  ℕ, ◌*◌, ◌<◌, ◌⊎◌, String, false, List, [], ◌∷◌, map, ◌≡◌, ltb, sum_by, All, if◌then◌else◌, length,
}
use infer_twin.Replay.Metrics.Latency.{IterationLatencyBreakdown, contribution}
use infer_twin.Replay.Metrics.Latency.Sums.{Near}
use infer_twin.Scheduler.BatchShape.{
  ScheduledSlice, BatchShape, batch_size, scheduled_prefill_tokens, kv_load_bytes,
}

abbrev pub ids : List ScheduledSlice → List String
ids = map (λ s. s.request_id)

-- No slice stands under one of the keys.
abbrev Fresh : List String → List ScheduledSlice → Type 0
Fresh ks = All (λ s. contains s.request_id ks ≡ false)

module _ (divide : ℕ → ℕ → ℕ) (shape : BatchShape) (b : IterationLatencyBreakdown) where
  abbrev entry : ScheduledSlice → String × IterationLatencyBreakdown
  entry s = (s.request_id, contribution divide shape b s)

-- A slice that loads tokens loads bytes.
abbrev pub HasBytes : ScheduledSlice → Type 0
HasBytes s = (0 < s.kv_load_bytes) ⊎ (s.kv_load_tokens ≡ 0)

abbrev sum_of : (IterationLatencyBreakdown → ℕ) → List (String × IterationLatencyBreakdown) → ℕ
sum_of part = sum_by (λ e. part e.1)

module _ (divide : ℕ → ℕ → ℕ) (shape : BatchShape) (b : IterationLatencyBreakdown) where
  abbrev slices : List ScheduledSlice
  slices = shape.request_slices

  -- The shares stand in the order of the slices, and are nearly in proportion to their tokens and bytes.
  abbrev pub Proportional : List ScheduledSlice → List (String × IterationLatencyBreakdown) → Type 0
  Proportional [] [] = Unit
  Proportional (s ∷ rest) ((k, x) ∷ contributions) =
      (k ≡ s.request_id)
      × (0 < scheduled_prefill_tokens shape
          → Near (scheduled_prefill_tokens shape)
              (x.prefill_compute_ms * scheduled_prefill_tokens shape)
              (b.prefill_compute_ms * s.scheduled_prefill_tokens))
      × (0 < kv_load_bytes shape
          → Near (kv_load_bytes shape) (x.kv_load_ms * kv_load_bytes shape)
              (b.kv_load_ms * s.kv_load_bytes))
      × Proportional rest contributions
  Proportional _ _ = ⊥

-- The parts of the latency, and what the requests' shares of them add up to, up to one unit each.
pub record Shared (divide : ℕ → ℕ → ℕ) (shape : BatchShape) (b : IterationLatencyBreakdown)
    (contributions : List (String × IterationLatencyBreakdown)) : Type 0 where
  pub each_once : keys contributions ≡ ids shape.request_slices
  pub proportional : Proportional divide shape b shape.request_slices contributions
  pub prefill :
      Near
        (length shape.request_slices)
        (sum_of (λ c. c.prefill_compute_ms) contributions)
        (if ltb 0 (scheduled_prefill_tokens shape) then b.prefill_compute_ms else 0)
  pub kv_load :
      Near
        (length shape.request_slices)
        (sum_of (λ c. c.kv_load_ms) contributions)
        (if ltb 0 (kv_load_bytes shape) then b.kv_load_ms else 0)
  pub queue :
      Near
        (length shape.request_slices)
        (sum_of (λ c. c.queue_ms) contributions)
        (if ltb 0 (batch_size shape) then b.queue_ms else 0)
