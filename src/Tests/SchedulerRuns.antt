-- ===== src/Tests/SchedulerRuns.antt =====
-- The theorems on requests, queues, batches and transfers, applied.
use infer_twin.Base.Int.{negsuc}
use infer_twin.Base.{
  ℕ, String, List, [], ◌∷◌, none, some, ok, ◌≡◌, refl, arith, Bool, true, false, inl,
}
use infer_twin.Replay.KvTransfer.{
  KvTransferRequest, KvTransferResult, SharedLinkFifoTransferQueue, check_request, submit_all,
}
use infer_twin.Replay.KvTransfer.Laws.{Fifo, submit_all-Fifo}
use infer_twin.Replay.Timeline.{legacy, waiting_for_compute}
use infer_twin.Scheduler.BatchShape.{BatchShape}
use infer_twin.Scheduler.Config.{SchedulerConfig, check_config}
use infer_twin.Scheduler.Queue.{WaitingQueue, iter, pop}
use infer_twin.Scheduler.Queue.Laws.{IsCompact, Popped, pop_list, pop-refines}
use infer_twin.Scheduler.State.{
  RequestState, RequestStatus, waiting, running, set_cache_lookup, apply_scheduled_tokens,
  consume_pending_kv_load, has_pending_kv_load, record_progressive_materialization,
}
use infer_twin.Scheduler.State.Laws.{
  IsReady, LookedUp, Applied, set_cache_lookup-LookedUp, apply_scheduled_tokens-Applied,
  consume_pending_kv_load-once,
}
use infer_twin.Scheduler.State.Materialized.{Recorded, new_blocks, record-Recorded}
use infer_twin.Scheduler.VllmLike.{schedule, is_empty}
use infer_twin.Scheduler.VllmLike.Progress.{schedule-progress}
use infer_twin.Scheduler.VllmLike.Laws.{Scheduled, schedule-Scheduled}
use infer_twin.Tests.Samples.{abd}

-- a request of eleven tokens, four of them cached
abbrev pub request_in : String → RequestStatus → Bool → RequestState
request_in id status looked_up = record {
  request_id = id;
  tenant_id = "t";
  instance_uuid = "i1";
  arrival_time_ms = 3;
  prompt_tokens = 11;
  prompt_blocks = abd;
  effective_block_size = 4;
  model = "m";
  tokenizer_profile = "p";
  arrival_seq = 0;
  status = status;
  cache_lookup_done = looked_up;
  cached_tokens = 4;
  miss_tokens = some 7;
  num_computed_tokens = 4;
  first_scheduled_time_ms = none;
  finish_time_ms = none;
  scheduled_iteration_count = 0;
  pending_kv_load_tokens = 4;
  pending_kv_load_bytes = 64;
  kv_load_scheduled = false;
  prefill_compute_ms = 0;
  kv_load_ms = 0;
  queue_ms = 0;
  timeline_mode = legacy;
  timeline_state = waiting_for_compute;
  compute_wait_ms = 0;
  kv_load_wait_ms = 0;
  unattributed_ttft_ms = 0;
  chunk_count = 0;
  load_event_count = 0;
  progressive_materialized_blocks = 1;
  progressive_materialized_tokens = 4;
  progressive_materialized_block_keys = "a" ∷ [];
}

pub request_in-IsReady :
    (id : String) (status : RequestStatus) → IsReady (request_in id status true)
request_in-IsReady id status = record {
  looked_up = refl;
  counted = refl;
  cached = omega arith;
  computed = omega arith;
}

set_cache_lookup-LookedUp_example :
    LookedUp
      (request_in "r1" waiting false)
      4
      7
      4
      64
      (set_cache_lookup 4 7 4 64 (request_in "r1" waiting false))
set_cache_lookup-LookedUp_example =
    set_cache_lookup-LookedUp (request_in "r1" waiting false) 4 7 4 64

apply_scheduled_tokens-Applied_example :
    Applied
      (request_in "r1" running true)
      7
      9
      (apply_scheduled_tokens 7 9 (request_in "r1" running true))
apply_scheduled_tokens-Applied_example =
    apply_scheduled_tokens-Applied (request_in "r1" running true) 7 9
      (request_in-IsReady "r1" running)

consume_pending_kv_load-once_example :
    (r' : RequestState) × (consume_pending_kv_load (request_in "r1" running true)
      ≡ ok ((4, 64), r'))
    × IsReady r'
    × (has_pending_kv_load r' ≡ ok false)
    × (consume_pending_kv_load r' ≡ ok ((0, 0), r'))
consume_pending_kv_load-once_example =
    consume_pending_kv_load-once (request_in "r1" running true) (request_in-IsReady "r1" running)

record-Recorded_example :
    (r' : RequestState) × (record_progressive_materialization abd (request_in "r1" running true)
      ≡ (new_blocks ("a" ∷ []) abd, r'))
    × Recorded (request_in "r1" running true) (new_blocks ("a" ∷ []) abd) r'
record-Recorded_example = record-Recorded abd (request_in "r1" running true)

-- a queue with one request already taken
abbrev queued : WaitingQueue RequestState
queued = record {
  items =
      request_in "r0" running true
      ∷ request_in "r1" waiting true
      ∷ request_in "r2" waiting true
      ∷ [];
  head = 1;
}

queued-IsCompact : IsCompact queued
queued-IsCompact = record { within = omega arith; dead = inl (omega arith) }

pop-refines_example : Popped (pop_list (negsuc 0) (iter queued)) (pop (negsuc 0) queued)
pop-refines_example = pop-refines queued (negsuc 0) queued-IsCompact

-- eight tokens in an iteration: the running request gets seven, the first waiting one gets one
abbrev pub budget_of_eight : SchedulerConfig
budget_of_eight = record {
  max_num_batched_tokens = 8;
  max_num_seqs = 4;
  enable_chunked_prefill = true;
  long_prefill_token_threshold = none;
  policy = "fcfs";
}

schedule-Scheduled_example :
    (shape : BatchShape) × (waiting' : WaitingQueue RequestState) × (running' : List RequestState)
    × (schedule budget_of_eight "i1" 0 9 queued (request_in "r0" running true ∷ [])
        ≡ ok (shape, waiting', running'))
    × Scheduled budget_of_eight 9 queued (request_in "r0" running true ∷ []) shape waiting' running'
unfolding iter
schedule-Scheduled_example =
    schedule-Scheduled budget_of_eight "i1" 0 9 queued (request_in "r0" running true ∷ [])
      queued-IsCompact
      (
        record { ready = request_in-IsReady "r1" waiting; waits_for = refl },
        (record { ready = request_in-IsReady "r2" waiting; waits_for = refl }, tt),
      )
      (request_in-IsReady "r0" running, tt)

schedule-progress_example :
    (shape : BatchShape) × (waiting' : WaitingQueue RequestState) × (running' : List RequestState)
    × (schedule budget_of_eight "i1" 0 9 queued [] ≡ ok (shape, waiting', running'))
    × (is_empty shape ≡ false)
unfolding check_config iter
schedule-progress_example =
    schedule-progress budget_of_eight "i1" 0 9 queued (request_in "r1" waiting true)
      (request_in "r2" waiting true ∷ []) refl refl queued-IsCompact
      (
        record { ready = request_in-IsReady "r1" waiting; waits_for = refl },
        (record { ready = request_in-IsReady "r2" waiting; waits_for = refl }, tt),
      )
      refl (omega arith)

abbrev transfer : String → ℕ → KvTransferRequest
transfer id ready = record {
  request_id = id;
  instance_uuid = "i1";
  ready_time_ms = ready;
  transfer_ms = 4;
  kv_load_tokens = 4;
  kv_load_bytes = 64;
}

abbrev link : SharedLinkFifoTransferQueue
link = record { instance_uuid = "i1"; next_available_time_ms = 0; unfinished_finish_times = [] }

submit_all-Fifo_example :
    (xs : List KvTransferResult) × (q' : SharedLinkFifoTransferQueue) × (submit_all
        (transfer "r1" 2 ∷ transfer "r2" 3 ∷ [])
        link
      ≡ ok (xs, q'))
    × Fifo 0 (transfer "r1" 2 ∷ transfer "r2" 3 ∷ []) xs q'.next_available_time_ms
unfolding check_request
submit_all-Fifo_example =
    submit_all-Fifo (transfer "r1" 2 ∷ transfer "r2" 3 ∷ []) link
      (record { checked = refl; here = refl }, (record { checked = refl; here = refl }, tt))
