-- ===== src/Replay/KvTransfer.antt =====
-- src/infertwin/replay/kv_transfer.py: the transfers of one instance, one after the other on a shared
-- link. Times are natural numbers, so the checks that they are not negative always pass.
pub mod Laws
use infer_twin.Base.{
  ℕ, ◌+◌, ◌-◌, String, Bool, true, false, ◌||◌, not, List, [], ◌∷◌, ◌++◌, Result, ok, reject_if,
  ◌>>=◌, ◌>>◌, if◌then◌else◌, ltb, str_eq, max, length,
}

pub record KvTransferRequest : Type 0 where
  pub request_id : String
  pub instance_uuid : String
  pub ready_time_ms : ℕ
  pub transfer_ms : ℕ
  pub kv_load_tokens : ℕ
  pub kv_load_bytes : ℕ

-- `KvTransferRequest.__post_init__`
unfoldable pub check_request : KvTransferRequest → Result KvTransferRequest
check_request r = do reject_if (str_eq r.request_id ""); reject_if (str_eq r.instance_uuid ""); ok r

pub record KvTransferResult : Type 0 where
  pub request_id : String
  pub instance_uuid : String
  pub ready_time_ms : ℕ
  pub start_time_ms : ℕ
  pub finish_time_ms : ℕ
  pub transfer_ms : ℕ
  pub queue_wait_ms : ℕ
  pub elapsed_ms : ℕ
  pub queue_depth_before : ℕ
  pub queue_depth_after : ℕ

-- `KvTransferResult.__post_init__`
unfoldable pub check_result : KvTransferResult → Result KvTransferResult
check_result r = do
  reject_if (str_eq r.request_id "")
  reject_if (str_eq r.instance_uuid "")
  reject_if (ltb r.start_time_ms r.ready_time_ms)
  reject_if (ltb r.finish_time_ms r.start_time_ms)
  ok r

pub record SharedLinkFifoTransferQueue : Type 0 where
  pub instance_uuid : String
  pub next_available_time_ms : ℕ
  pub unfinished_finish_times : List ℕ

-- `__init__`
unfoldable pub new_queue : String → Result SharedLinkFifoTransferQueue
new_queue instance_uuid = do
  reject_if (str_eq instance_uuid "")
  ok (record {
    instance_uuid = instance_uuid;
    next_available_time_ms = 0;
    unfinished_finish_times = [];
  })

-- `_prune_completed`
unfoldable pub prune_completed : ℕ → List ℕ → List ℕ
prune_completed ready_time [] = []
prune_completed ready_time (t ∷ ts) =
    let rest = prune_completed ready_time ts in if ltb ready_time t then t ∷ rest else rest

unfoldable pub submit :
    KvTransferRequest
    → SharedLinkFifoTransferQueue
    → Result (KvTransferResult × SharedLinkFifoTransferQueue)
unfolding prune_completed check_result
submit r q = do
  reject_if (not (str_eq r.instance_uuid q.instance_uuid))
  let unfinished = prune_completed r.ready_time_ms q.unfinished_finish_times
  let start = max r.ready_time_ms q.next_available_time_ms
  let finish = start + r.transfer_ms
  let unfinished' = if ltb 0 r.transfer_ms then unfinished ++ finish ∷ [] else unfinished
  result ← check_result (record {
    request_id = r.request_id;
    instance_uuid = r.instance_uuid;
    ready_time_ms = r.ready_time_ms;
    start_time_ms = start;
    finish_time_ms = finish;
    transfer_ms = r.transfer_ms;
    queue_wait_ms = start - r.ready_time_ms;
    elapsed_ms = finish - r.ready_time_ms;
    queue_depth_before = length unfinished;
    queue_depth_after = length unfinished';
  })
  ok (result, record q { next_available_time_ms = finish; unfinished_finish_times = unfinished' })

-- Transfers one after the other.
unfoldable pub submit_all :
    List KvTransferRequest
    → SharedLinkFifoTransferQueue
    → Result (List KvTransferResult × SharedLinkFifoTransferQueue)
unfolding submit
submit_all [] q = ok ([], q)
submit_all (r ∷ rs) q = do
  (result, q1) ← submit r q
  (results, q2) ← submit_all rs q1
  ok (result ∷ results, q2)
