-- ===== src/Replay/EventLoop/Apply.antt =====
-- src/infertwin/replay/event_loop.py: `_apply_schedule_result`, the end of an iteration.
pub mod Laws
use infer_twin.Base.{
  ℕ, ◌+◌, String, Bool, true, false, not, List, [], ◌∷◌, ◌++◌, Result, ok, ◌>>=◌, if◌then◌else◌,
  ◌==◌, max, length,
}
use infer_twin.Cache.Materialization.{
  materialize_scheduled_chunk as policy_scheduled_chunk,
  materialize_finished_request as policy_finished_request,
}
use infer_twin.Latency.Schema.{LatencyResult}
use infer_twin.Replay.EventLoop.Waits.{ComputeWaitAccounting, record_scheduled_kv_load_timing}
use infer_twin.Replay.EventLoop.{Engine, Loop, entry, state_of, update}
use infer_twin.Replay.Iteration.{is_progressive, enter_chunk, leave_chunk}
use infer_twin.Replay.Metrics.Build.{
  IterationAccounting, build_request_metrics, build_iteration_metrics,
}
use infer_twin.Replay.Metrics.Latency.{
  IterationLatencyBreakdown, split_iteration_latency_contributions,
}
use infer_twin.Replay.Metrics.Lookup.{LookupMetrics}
use infer_twin.Request.Block.{PrefixBlock, tokens}
use infer_twin.Scheduler.BatchShape.{ScheduledSlice, BatchShape}
use infer_twin.Scheduler.State.{
  RequestState, is_finished, apply_scheduled_tokens, apply_load_only_iteration,
  record_latency_contribution, record_progressive_materialization,
}

-- what a materialization made visible is counted
abbrev pub count_blocks : List PrefixBlock → IterationAccounting → IterationAccounting
count_blocks blocks acc = record acc {
  progressive_materialized_blocks = acc.progressive_materialized_blocks + length blocks;
  progressive_materialized_tokens = acc.progressive_materialized_tokens + tokens blocks;
}

abbrev pub no_blocks : List PrefixBlock → Bool
no_blocks [] = true
no_blocks (b ∷ bs) = false

module _ {ℓ} {C : Type ℓ} (e : Engine C) where
  -- `_materialize_scheduled_chunk` and `_record_progressive_result`
  unfoldable pub materialize_scheduled_chunk :
      ScheduledSlice
      → LookupMetrics
      → (finish_ms : ℕ) → RequestState
      → C
      → Result (List PrefixBlock × RequestState × C)
  materialize_scheduled_chunk slice lookup finish_ms s c =
      if not (is_progressive e.timeline_mode) then ok ([], s, c) else do
        (selected, c') ←
            policy_scheduled_chunk e.cache_operations.materialize e.materialization_policy
              lookup.materialization_blocks s.prompt_blocks s.effective_block_size
              slice.computed_tokens_before slice.computed_tokens_after finish_ms s.request_id
              s.instance_uuid s.progressive_materialized_block_keys c
        let (recorded, s') = record_progressive_materialization selected s
        ok (recorded, s', c')

  -- `_materialize_finished_request`; in legacy mode the policy is given no prompt blocks
  unfoldable pub materialize_finished_request :
      LookupMetrics
      → (finish_ms : ℕ) → RequestState
      → C
      → Result (List PrefixBlock × RequestState × C)
  materialize_finished_request lookup finish_ms s c =
      if not (is_progressive e.timeline_mode)
      then (policy_finished_request e.cache_operations.materialize e.materialization_policy
            lookup.materialization_blocks [] 0 finish_ms s.request_id s.instance_uuid [] c
          >>= λ done. ok ([], s, done.1))
      else do
        (selected, c') ←
            policy_finished_request e.cache_operations.materialize e.materialization_policy
              lookup.materialization_blocks s.prompt_blocks s.effective_block_size finish_ms
              s.request_id s.instance_uuid s.progressive_materialized_block_keys c
        let (recorded, s') = record_progressive_materialization selected s
        ok (recorded, s', c')

  -- the tokens of a slice, and the blocks that they complete
  unfoldable pub apply_tokens :
      ScheduledSlice
      → LookupMetrics
      → (finish_ms : ℕ) → RequestState
      → C
      → Result (List PrefixBlock × RequestState × C)
  unfolding materialize_scheduled_chunk
  apply_tokens slice lookup finish_ms s c =
      if slice.scheduled_prefill_tokens == 0
      then (apply_load_only_iteration finish_ms s >>= λ s'. ok ([], s', c))
      else do
        s' ←
            apply_scheduled_tokens slice.scheduled_prefill_tokens finish_ms
              (enter_chunk e.timeline_mode s)
        materialize_scheduled_chunk slice lookup finish_ms s' c

  -- a request that is finished: its blocks become visible, and its metrics are kept
  unfoldable pub complete_request :
      (a : ℕ)
      → LookupMetrics
      → (finish_ms : ℕ) → RequestState
      → IterationAccounting
      → Loop C
      → Result (IterationAccounting × Loop C)
  unfolding materialize_finished_request
  complete_request a lookup finish_ms s acc l = do
    (blocks, s', c) ←
        if no_blocks lookup.materialization_blocks
        then ok ([], s, l.cache)
        else materialize_finished_request lookup finish_ms s l.cache
    request ← entry s'.request_id l.requests_by_id
    metrics ← build_request_metrics e.divide e.epsilon request s' lookup
    ok (
      count_blocks blocks acc,
      update a s' (record l { cache = c; request_metrics = l.request_metrics ++ metrics ∷ [] }),
    )

  -- one turn of the loop over the slices
  unfoldable pub apply_one :
      (contributions : List (String × IterationLatencyBreakdown)) (start_ms finish_ms : ℕ)
      → ScheduledSlice
      → IterationAccounting
      → Loop C
      → Result (IterationAccounting × Loop C)
  unfolding apply_tokens complete_request
  apply_one contributions start_ms finish_ms slice acc l = do
    a ← entry slice.request_id l.states_by_id
    s0 ← state_of a l
    lookup ← entry s0.request_id l.lookup_by_id
    contribution ← entry slice.request_id contributions
    (timing, s1, queue) ←
        record_scheduled_kv_load_timing s0 slice contribution.kv_load_ms e.timeline_mode
          l.transfer_queue start_ms
    let s2 =
        record_latency_contribution contribution.prefill_compute_ms contribution.kv_load_ms
          contribution.queue_ms s1
    (blocks, s3, c) ← apply_tokens slice lookup finish_ms s2 l.cache
    let s4 = leave_chunk e.timeline_mode s3
    let acc' = count_blocks blocks (record acc {
      waiting_for_kv_load_count = acc.waiting_for_kv_load_count + timing.waiting_for_kv_load_count;
      kv_load_wait_ms = acc.kv_load_wait_ms + timing.kv_load_wait_ms;
      kv_transfer_queue_depth_max =
          max acc.kv_transfer_queue_depth_max timing.kv_transfer_queue_depth_max;
    })
    let l' = update a s4 (record l { cache = c; transfer_queue = queue })
    if is_finished s4.status then complete_request a lookup finish_ms s4 acc' l' else ok (acc', l')

  unfoldable pub apply_all :
      (contributions : List (String × IterationLatencyBreakdown)) (start_ms finish_ms : ℕ)
      → List ScheduledSlice
      → IterationAccounting
      → Loop C
      → Result (IterationAccounting × Loop C)
  unfolding apply_one
  apply_all contributions start_ms finish_ms [] acc l = ok (acc, l)
  apply_all contributions start_ms finish_ms (slice ∷ slices) acc l = do
    (acc', l') ← apply_one contributions start_ms finish_ms slice acc l
    apply_all contributions start_ms finish_ms slices acc' l'

  -- `_apply_schedule_result`
  unfoldable pub apply_schedule_result :
      BatchShape
      → LatencyResult
      → (finish_ms : ℕ) → ComputeWaitAccounting
      → Loop C
      → Result (Loop C)
  unfolding apply_all
  apply_schedule_result shape latency finish_ms wait l = do
    contributions ← split_iteration_latency_contributions e.divide shape latency
    (acc, l') ←
        apply_all contributions shape.start_time_ms finish_ms shape.request_slices
          (record {
            waiting_for_compute_count = wait.waiting_for_compute_count;
            waiting_for_kv_load_count = 0;
            compute_wait_ms = wait.compute_wait_ms;
            kv_load_wait_ms = 0;
            kv_transfer_queue_depth_max = 0;
            progressive_materialized_blocks = 0;
            progressive_materialized_tokens = 0;
          })
          l
    metrics ← build_iteration_metrics shape latency finish_ms e.timeline_mode acc
    ok (record l' { iteration_metrics = l'.iteration_metrics ++ metrics ∷ [] })
