-- ===== src/Scheduler/BatchShape.antt =====
-- src/infertwin/scheduler/batch_shape.py: what the scheduler emits in one iteration. The counts are
-- natural numbers, so the checks that they are not negative always pass.
use infer_twin.Base.{
  ℕ, ◌+◌, String, ◌&&◌, ◌||◌, not, List, [], ◌∷◌, Result, ok, reject_if, ◌>>◌, if◌then◌else◌, ltb,
  ◌==◌, max, length, sum_by,
}

pub record ScheduledSlice : Type 0 where
  pub request_id : String
  pub scheduled_prefill_tokens : ℕ
  pub computed_tokens_before : ℕ
  pub computed_tokens_after : ℕ
  pub prompt_tokens : ℕ
  pub cached_prefix_tokens : ℕ
  pub previous_chunk_tokens : ℕ
  pub kv_load_tokens : ℕ
  pub kv_load_bytes : ℕ

-- `__post_init__`
unfoldable pub check_slice : ScheduledSlice → Result ScheduledSlice
check_slice s = do
  reject_if (s.scheduled_prefill_tokens == 0 && (s.kv_load_tokens == 0 && s.kv_load_bytes == 0))
  reject_if (not (s.computed_tokens_before == s.cached_prefix_tokens + s.previous_chunk_tokens))
  reject_if (not (s.computed_tokens_after == s.computed_tokens_before + s.scheduled_prefill_tokens))
  reject_if (ltb s.prompt_tokens s.computed_tokens_after)
  ok s

pub record BatchShape : Type 0 where
  pub instance_uuid : String
  pub iteration_id : ℕ
  pub start_time_ms : ℕ
  pub request_slices : List ScheduledSlice
  pub scheduled_decode_tokens : ℕ

unfoldable pub batch_size : BatchShape → ℕ
batch_size b = length b.request_slices

unfoldable pub scheduled_prefill_tokens : BatchShape → ℕ
scheduled_prefill_tokens b = sum_by (λ s. s.scheduled_prefill_tokens) b.request_slices

unfoldable pub longest : List ScheduledSlice → ℕ
longest [] = 0
longest (s ∷ slices) = max s.scheduled_prefill_tokens (longest slices)

unfoldable pub max_query_len : BatchShape → ℕ
unfolding longest
max_query_len b = longest b.request_slices

unfoldable pub total_context_tokens : BatchShape → ℕ
total_context_tokens b = sum_by (λ s. s.computed_tokens_before) b.request_slices

unfoldable pub kv_load_tokens : BatchShape → ℕ
kv_load_tokens b = sum_by (λ s. s.kv_load_tokens) b.request_slices

unfoldable pub kv_load_bytes : BatchShape → ℕ
kv_load_bytes b = sum_by (λ s. s.kv_load_bytes) b.request_slices

unfoldable pub kv_load_request_count : BatchShape → ℕ
kv_load_request_count b =
    sum_by (λ s. if ltb 0 s.kv_load_tokens || ltb 0 s.kv_load_bytes then 1 else 0) b.request_slices
