-- ===== src/Replay/EventLoop/Waits.antt =====
-- src/infertwin/replay/event_loop.py: how the time of an iteration is attributed, to the active requests
-- outside of the batch, and to the loads of those in it.
pub mod Waiters
pub mod Laws
use infer_twin.Base.Dict.{contains}
use infer_twin.Base.{
  ℕ, ◌+◌, String, Bool, ◌&&◌, ◌||◌, not, List, [], ◌∷◌, Result, ok, ◌>>=◌, if◌then◌else◌, ◌==◌,
}
use infer_twin.Replay.EventLoop.{write_at}
use infer_twin.Replay.Iteration.{is_progressive}
use infer_twin.Replay.KvTransfer.{
  KvTransferRequest, SharedLinkFifoTransferQueue, check_request, submit,
}
use infer_twin.Replay.Timeline.{TimelineMode, waiting_for_kv_load}
use infer_twin.Scheduler.BatchShape.{ScheduledSlice}
use infer_twin.Scheduler.Queue.{item_at}
use infer_twin.Scheduler.State.{
  RequestState, is_finished, record_compute_wait, record_kv_load_event,
}

pub record ComputeWaitAccounting : Type 0 where
  pub waiting_for_compute_count : ℕ
  pub compute_wait_ms : ℕ

pub record KvLoadTimingAccounting : Type 0 where
  pub waiting_for_kv_load_count : ℕ
  pub kv_load_wait_ms : ℕ
  pub kv_transfer_queue_depth_max : ℕ

-- the guards of the loop: the first state of its name, not finished and not in the batch
abbrev pub waits : (scheduled seen : List String) → RequestState → Bool
waits scheduled seen s =
    not (contains s.request_id seen)
    && (not (is_finished s.status) && not (contains s.request_id scheduled))

abbrev pub charge : ℕ → ComputeWaitAccounting → ComputeWaitAccounting
charge duration acc = record {
  waiting_for_compute_count = acc.waiting_for_compute_count + 1;
  compute_wait_ms = acc.compute_wait_ms + duration;
}

-- The loop over the active requests, with the names seen so far.
unfoldable pub compute_wait_loop :
    (scheduled : List String) (duration : ℕ)
    → List ℕ
    → (seen : List String) → List RequestState
    → ComputeWaitAccounting
    → Result (ComputeWaitAccounting × List RequestState)
compute_wait_loop scheduled duration [] seen states acc = ok (acc, states)
compute_wait_loop scheduled duration (a ∷ rest) seen states acc = do
  s ← item_at a states
  let now_waits = waits scheduled seen s
  compute_wait_loop scheduled duration rest (s.request_id ∷ seen)
      (if now_waits then write_at a (record_compute_wait duration s) states else states)
      (if now_waits then charge duration acc else acc)

-- `_record_iteration_compute_wait`, of the addresses of the waiting requests and then the running ones
unfoldable pub record_iteration_compute_wait :
    (active : List ℕ) (scheduled : List String) (duration : ℕ)
    → TimelineMode
    → List RequestState
    → Result (ComputeWaitAccounting × List RequestState)
unfolding compute_wait_loop
record_iteration_compute_wait active scheduled duration mode states =
    let none_yet : ComputeWaitAccounting = record {
      waiting_for_compute_count = 0;
      compute_wait_ms = 0;
    } in
    if not (is_progressive mode)
    then ok (none_yet, states)
    else compute_wait_loop scheduled duration active [] states none_yet

-- `_record_scheduled_kv_load_timing`
unfoldable pub record_scheduled_kv_load_timing :
    RequestState
    → ScheduledSlice
    → (kv_load_ms : ℕ) → TimelineMode
    → SharedLinkFifoTransferQueue
    → (ready_time : ℕ)
    → Result (KvLoadTimingAccounting × RequestState × SharedLinkFifoTransferQueue)
record_scheduled_kv_load_timing s slice kv_load_ms mode queue ready_time =
    let no_load : KvLoadTimingAccounting = record {
      waiting_for_kv_load_count = 0;
      kv_load_wait_ms = 0;
      kv_transfer_queue_depth_max = 0;
    } in
    if not (is_progressive mode) || (slice.kv_load_tokens == 0 && slice.kv_load_bytes == 0)
    then ok (no_load, s, queue)
    else do
      request ← check_request (record {
        request_id = s.request_id;
        instance_uuid = s.instance_uuid;
        ready_time_ms = ready_time;
        transfer_ms = kv_load_ms;
        kv_load_tokens = slice.kv_load_tokens;
        kv_load_bytes = slice.kv_load_bytes;
      })
      (transfer, queue') ← submit request queue
      ok (
        record {
          waiting_for_kv_load_count = 1;
          kv_load_wait_ms = transfer.elapsed_ms;
          kv_transfer_queue_depth_max = transfer.queue_depth_after;
        },
        record_kv_load_event transfer.elapsed_ms
            (record s { timeline_state = waiting_for_kv_load }),
        queue',
      )
