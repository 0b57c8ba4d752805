-- ===== src/Replay/KvTransfer/Laws.antt =====
-- The link is first in, first out, and carries one transfer at a time.
use infer_twin.Base.{
  ℕ, ◌+◌, ◌-◌, String, false, not, List, [], ◌∷◌, ◌++◌, ok, if◌then◌else◌, ltb, str_eq, str_eq_self,
  max, length, arith, ◌≡◌, refl, All, ap, passed,
}
use infer_twin.Replay.KvTransfer.{
  KvTransferRequest, KvTransferResult, SharedLinkFifoTransferQueue, check_request, check_result,
  prune_completed, submit, submit_all,
}

-- The transfers of the results follow each other: each starts when the one before has ended and it
-- is ready, whichever is later, and takes its time. The first number is when the link is free.
pub data Fifo : ℕ → List KvTransferRequest → List KvTransferResult → ℕ → Type 0 where
  idle_link : {free : ℕ} → Fifo free [] [] free
  transferred :
      {free end : ℕ} {r : KvTransferRequest} {x : KvTransferResult} {rs : List KvTransferRequest}
      {xs : List KvTransferResult}
      → x.request_id ≡ r.request_id
      → x.start_time_ms ≡ max r.ready_time_ms free
      → x.finish_time_ms ≡ x.start_time_ms + r.transfer_ms
      → r.ready_time_ms + x.queue_wait_ms ≡ x.start_time_ms
      → x.elapsed_ms ≡ x.queue_wait_ms + r.transfer_ms
      → Fifo x.finish_time_ms rs xs end
      → Fifo free (r ∷ rs) (x ∷ xs) end

-- A request for this instance that passes its check.
pub record IsFor (instance_uuid : String) (r : KvTransferRequest) : Type 0 where
  pub checked : check_request r ≡ ok r
  pub here : r.instance_uuid ≡ instance_uuid

-- what is unfinished once the request is ready, and once it is submitted
abbrev before : KvTransferRequest → SharedLinkFifoTransferQueue → List ℕ
before r q = prune_completed r.ready_time_ms q.unfinished_finish_times

abbrev start : KvTransferRequest → SharedLinkFifoTransferQueue → ℕ
start r q = max r.ready_time_ms q.next_available_time_ms

abbrev after : KvTransferRequest → SharedLinkFifoTransferQueue → List ℕ
after r q =
    if ltb 0 r.transfer_ms then before r q ++ (start r q + r.transfer_ms) ∷ [] else before r q

abbrev result_of : KvTransferRequest → SharedLinkFifoTransferQueue → KvTransferResult
result_of r q = record {
  request_id = r.request_id;
  instance_uuid = r.instance_uuid;
  ready_time_ms = r.ready_time_ms;
  start_time_ms = start r q;
  finish_time_ms = start r q + r.transfer_ms;
  transfer_ms = r.transfer_ms;
  queue_wait_ms = start r q - r.ready_time_ms;
  elapsed_ms = start r q + r.transfer_ms - r.ready_time_ms;
  queue_depth_before = length (before r q);
  queue_depth_after = length (after r q);
}

abbrev next : KvTransferRequest → SharedLinkFifoTransferQueue → SharedLinkFifoTransferQueue
next r q = record q {
  next_available_time_ms = start r q + r.transfer_ms;
  unfinished_finish_times = after r q;
}

named :
    (r : KvTransferRequest)
    → check_request r ≡ ok r
    → (str_eq r.request_id "" ≡ false) × (str_eq r.instance_uuid "" ≡ false)
unfolding check_request
named r h =
    let (no_id, rest) = passed (str_eq r.request_id "") h in
    let (no_instance, last) = passed (str_eq r.instance_uuid "") rest in (no_id, no_instance)

submit-ok :
    (r : KvTransferRequest) (q : SharedLinkFifoTransferQueue)
    → IsFor q.instance_uuid r
    → submit r q ≡ ok (result_of r q, next r q)
unfolding submit check_result
submit-ok r q h =
    let (id, uuid) = named r h.checked in
    let same : not (str_eq r.instance_uuid q.instance_uuid) ≡ false =
      rw (ap (λ s. str_eq s q.instance_uuid) h.here, str_eq_self q.instance_uuid) refl in
    let starts : ltb (start r q) r.ready_time_ms ≡ false = ground arith in
    let ends : ltb (start r q + r.transfer_ms) (start r q) ≡ false = ground arith in
    rw (same, id, uuid, starts, ends) refl

-- The transfers of one instance that pass their checks are all accepted, and carried in the order in
-- which they were submitted: each starts when it is ready and the one before has ended, whichever
-- is later, and takes its own time; what it waits and what it takes make up the elapsed time.
pub submit_all-Fifo :
    (rs : List KvTransferRequest) (q : SharedLinkFifoTransferQueue)
    → All (IsFor q.instance_uuid) rs
    → (xs : List KvTransferResult) × (q' : SharedLinkFifoTransferQueue) × (submit_all rs q
        ≡ ok (xs, q'))
      × Fifo q.next_available_time_ms rs xs q'.next_available_time_ms
unfolding submit_all
submit_all-Fifo [] q a = ([], q, refl, idle_link)
submit_all-Fifo (r ∷ rs) q (h, a) =
    let (xs, q', e, fifo) = submit_all-Fifo rs (next r q) a in
    (
      result_of r q ∷ xs,
      q',
      rw (submit-ok r q h, e) refl,
      transferred refl refl refl (omega arith) (omega arith) fifo,
    )
