-- ===== src/Scheduler/VllmLike.antt =====
-- src/infertwin/scheduler/vllm_like.py: `VllmLikeBatchScheduler.schedule`. The source updates the
-- requests and the two queues in place; here a loop returns what they have become.
pub mod Step
pub mod Loops
pub mod Laws
pub mod Progress
use infer_twin.Base.Int.{ℤ, pos}
use infer_twin.Base.{
  ℕ, zero, suc, ◌+◌, ◌-◌, String, Bool, true, false, ◌&&◌, not, List, [], ◌∷◌, ◌++◌, Option, none,
  some, Result, ok, raise, value_error, out_of_fuel, reject_if, ◌>>=◌, ◌>>◌, if◌then◌else◌, leb,
  ltb, ◌==◌, length,
}
use infer_twin.Scheduler.BatchShape.{ScheduledSlice, BatchShape, check_slice, batch_size}
use infer_twin.Scheduler.Config.{SchedulerConfig, planned_prefill_tokens}
use infer_twin.Scheduler.Queue.{WaitingQueue, len, get_item, popleft}
use infer_twin.Scheduler.State.{
  RequestState, is_waiting, is_running, running as status_running, remaining_prefill_tokens,
  has_pending_kv_load, consume_pending_kv_load,
}

-- What the loops of one iteration change: the slices so far and the tokens that may still be
-- scheduled.
pub record Batch : Type 0 where
  pub slices : List ScheduledSlice
  pub token_budget : ℕ

-- `_can_schedule_load_only`; `and` looks at the load only if no token remains
unfoldable pub can_schedule_load_only : RequestState → Result Bool
can_schedule_load_only r = do
  remaining ← remaining_prefill_tokens r
  if remaining == 0 then has_pending_kv_load r else ok false

-- `_slice_for`; the request loses its pending load
unfoldable pub slice_for : RequestState → ℕ → Result (ScheduledSlice × RequestState)
unfolding check_slice
slice_for r scheduled = do
  reject_if (ltb r.num_computed_tokens r.cached_tokens)
  ((load_tokens, load_bytes), r') ← consume_pending_kv_load r
  slice ← check_slice (record {
    request_id = r.request_id;
    scheduled_prefill_tokens = scheduled;
    computed_tokens_before = r.num_computed_tokens;
    computed_tokens_after = r.num_computed_tokens + scheduled;
    prompt_tokens = r.prompt_tokens;
    cached_prefix_tokens = r.cached_tokens;
    previous_chunk_tokens = r.num_computed_tokens - r.cached_tokens;
    kv_load_tokens = load_tokens;
    kv_load_bytes = load_bytes;
  })
  ok (slice, r')

-- What a loop does at a request: `break`, `continue`, or put it into the batch.
pub data Decision : Type 0 where
  stop skip : Decision
  schedule_tokens : ℕ → Decision

-- The guards of the loop over the running requests.
unfoldable pub decide_running : SchedulerConfig → RequestState → Batch → Result Decision
unfolding can_schedule_load_only
decide_running c r b =
    if leb c.max_num_seqs (length b.slices)
    then ok stop
    else if not (is_running r.status)
    then ok skip
    else do
      load_only ← can_schedule_load_only r
      if leb b.token_budget 0 && not load_only then ok stop else do
        scheduled ← planned_prefill_tokens c r b.token_budget
        ok (if leb scheduled 0 && not load_only then skip else schedule_tokens scheduled)

-- The guards of the loop over the waiting requests, behind its condition.
unfoldable pub decide_waiting : SchedulerConfig → RequestState → Batch → Result Decision
unfolding can_schedule_load_only
decide_waiting c r b = do
  reject_if (not (is_waiting r.status))
  if leb b.token_budget 0 && not r.cache_lookup_done then ok stop else do
    load_only ← can_schedule_load_only r
    if leb b.token_budget 0 && not load_only then ok stop else do
      scheduled ← planned_prefill_tokens c r b.token_budget
      ok (if leb scheduled 0 && not load_only then stop else schedule_tokens scheduled)

-- `slices.append(...)` and `token_budget -= scheduled_tokens`
unfoldable pub add_to_batch : RequestState → ℕ → Batch → Result (RequestState × Batch)
unfolding slice_for
add_to_batch r scheduled b = do
  (slice, r') ← slice_for r scheduled
  ok (r', record { slices = b.slices ++ slice ∷ []; token_budget = b.token_budget - scheduled })

unfoldable pub running_loop :
    SchedulerConfig → List RequestState → Batch → Result (List RequestState × Batch)
unfolding decide_running add_to_batch
running_loop c [] b = ok ([], b)
running_loop c (r ∷ rs) b = do
  decision ← decide_running c r b
  elim decision [
    | stop ↦ ok (r ∷ rs, b)
    | skip ↦ do (rs', b') ← running_loop c rs b; ok (r ∷ rs', b')
    | schedule_tokens n ↦ do
      (r', b1) ← add_to_batch r n b
      (rs', b') ← running_loop c rs b1
      ok (r' ∷ rs', b')
  ]

-- A waiting request becomes a running one; it keeps the time of its first iteration.
unfoldable pub admit : ℕ → RequestState → RequestState
admit time r = record r {
  status = status_running;
  first_scheduled_time_ms = elim r.first_scheduled_time_ms [ none ↦ some time | some t ↦ some t ];
}

-- The loop over the waiting requests: the queue that is left, the requests admitted in order, and
-- the batch. A turn either stops or takes one request, so the length of the queue is enough fuel.
unfoldable pub waiting_loop :
    SchedulerConfig
    → (time fuel : ℕ) → WaitingQueue RequestState
    → Batch
    → Result (WaitingQueue RequestState × List RequestState × Batch)
unfolding decide_waiting add_to_batch admit
waiting_loop c time zero q b =
    if ltb 0 (len q) && ltb (length b.slices) c.max_num_seqs
    then raise out_of_fuel
    else ok (q, [], b)
waiting_loop c time (suc fuel) q b =
    if not (ltb 0 (len q) && ltb (length b.slices) c.max_num_seqs) then ok (q, [], b) else do
      r ← get_item (pos 0) q
      decision ← decide_waiting c r b
      elim decision [
        | stop ↦ ok (q, [], b)
        | skip ↦ ok (q, [], b)
        | schedule_tokens n ↦ do
          (front, q1) ← popleft q
          (r', b1) ← add_to_batch (admit time r) n b
          (q', admitted, b') ← waiting_loop c time fuel q1 b1
          ok (q', r' ∷ admitted, b')
      ]

-- `schedule`: the shape of the batch, the queue and the running requests
unfoldable pub schedule :
    SchedulerConfig
    → (instance_uuid : String) → (iteration_id start_time_ms : ℕ) → WaitingQueue RequestState
    → List RequestState
    → Result (BatchShape × WaitingQueue RequestState × List RequestState)
unfolding running_loop waiting_loop
schedule c instance_uuid iteration_id start_time_ms waiting running = do
  (running', b1) ←
      running_loop c running (record { slices = []; token_budget = c.max_num_batched_tokens })
  (waiting', admitted, b2) ← waiting_loop c start_time_ms (len waiting) waiting b1
  ok (
    record {
      instance_uuid = instance_uuid;
      iteration_id = iteration_id;
      start_time_ms = start_time_ms;
      request_slices = b2.slices;
      scheduled_decode_tokens = 0;
    },
    waiting',
    running' ++ admitted,
  )

-- `is_empty`
unfoldable pub is_empty : BatchShape → Bool
unfolding batch_size
is_empty shape = batch_size shape == 0
