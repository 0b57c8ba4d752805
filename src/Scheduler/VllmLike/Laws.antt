-- ===== src/Scheduler/VllmLike/Laws.antt =====
-- What one iteration of the scheduler promises.
use infer_twin.Base.{
  ℕ, ◌+◌, ◌≤◌, String, List, [], ◌++◌, ok, arith, ◌≡◌, refl, ap, ◌∙◌, sum_by-append, append_assoc,
  All,
}
use infer_twin.Scheduler.BatchShape.{
  ScheduledSlice, BatchShape, batch_size, scheduled_prefill_tokens,
}
use infer_twin.Scheduler.Config.{SchedulerConfig}
use infer_twin.Scheduler.Queue.{WaitingQueue, len, iter}
use infer_twin.Scheduler.Queue.Laws.{IsCompact, len-iter}
use infer_twin.Scheduler.State.{RequestState}
use infer_twin.Scheduler.State.Laws.{IsReady}
use infer_twin.Scheduler.VllmLike.{Batch, schedule}
use infer_twin.Scheduler.VllmLike.Loops.{
  Selected, Admitted, IsQueued, Ended, Grown, tokens_of, running_loop-lem, waiting_loop-lem,
}

-- The outcome of an iteration.
pub record Scheduled (c : SchedulerConfig) (time : ℕ) (waiting : WaitingQueue RequestState)
    (running : List RequestState) (shape : BatchShape) (waiting' : WaitingQueue RequestState)
    (running' : List RequestState) : Type 0 where
  -- the budgets
  pub in_token_budget : scheduled_prefill_tokens shape ≤ c.max_num_batched_tokens
  pub in_seq_budget : batch_size shape ≤ c.max_num_seqs
  -- the slices of the running requests, and those of the requests admitted from the front
  pub slices : List ScheduledSlice
  pub admitted_slices : List ScheduledSlice
  pub all_slices : shape.request_slices ≡ slices ++ admitted_slices
  pub updated : List RequestState
  pub firsts : List RequestState
  pub admitted : List RequestState
  pub chosen : Selected running updated slices
  pub first_come : iter waiting ≡ firsts ++ iter waiting'
  pub taken : Admitted time firsts admitted admitted_slices
  pub now_running : running' ≡ updated ++ admitted
  pub compact : IsCompact waiting'
  -- why no other request was admitted
  pub ended :
      (b : Batch) × (b.slices ≡ shape.request_slices)
      × (b.token_budget + scheduled_prefill_tokens shape ≡ c.max_num_batched_tokens)
      × Ended c (iter waiting') b

Grown-trans :
    (b b1 b2 : Batch) (s1 s2 : List ScheduledSlice)
    → Grown b s1 b1
    → Grown b1 s2 b2
    → Grown b (s1 ++ s2) b2
Grown-trans b b1 b2 s1 s2 g1 g2 =
    let e1 = g1.paid in
    let e2 = g2.paid in
    record {
      more = g2.more ∙ ap (λ xs. xs ++ s2) g1.more ∙ append_assoc b.slices s1 s2;
      paid = omega (arith, sum_by-append (λ s. s.scheduled_prefill_tokens) s1 s2, e1, e2);
    }

Grown-tokens :
    (b b' : Batch) (s : List ScheduledSlice)
    → Grown b s b'
    → b.slices ≡ []
    → b'.token_budget + tokens_of b'.slices ≡ b.token_budget
Grown-tokens b b' s g none_yet =
    let all : b'.slices ≡ s = g.more ∙ ap (λ xs. xs ++ s) none_yet in
    let paid = g.paid in omega (arith, ap tokens_of all, paid)

within_budget : {n m : ℕ} (left : ℕ) → left + n ≡ m → n ≤ m
within_budget left e = omega (arith, e)

-- On a compact queue of waiting requests and a list of running ones that have all been looked up,
-- `schedule` returns a batch. Its slices hold at most `max_num_batched_tokens` tokens and are at most
-- `max_num_seqs`; each passes the check of `ScheduledSlice`, and they belong to requests in the order
-- of the two queues, at most one to each, with no more tokens than the request needs. The admitted
-- requests are the first ones of the queue, each with a slice; the others stay there in order, and
-- the admitted ones join the end of the running ones. If others are left then no seat was left, or
-- the first of them gets no token of the budget that is left and is not one with only a load left.
pub schedule-Scheduled :
    (c : SchedulerConfig) (instance_uuid : String) (iteration_id time : ℕ)
    (waiting : WaitingQueue RequestState) (running : List RequestState)
    → IsCompact waiting
    → All IsQueued (iter waiting)
    → All IsReady running
    → (shape : BatchShape) × (waiting' : WaitingQueue RequestState) × (running' : List RequestState)
      × (schedule c instance_uuid iteration_id time waiting running
          ≡ ok (shape, waiting', running'))
      × Scheduled c time waiting running shape waiting' running'
unfolding schedule batch_size scheduled_prefill_tokens
schedule-Scheduled c instance_uuid iteration_id time waiting running k queued ready =
    let b0 : Batch = record { slices = []; token_budget = c.max_num_batched_tokens } in
    let (updated, b1, s1, loop1, chosen, g1, l1) =
      running_loop-lem c running b0 ready (omega arith) in
    let (waiting', firsts, admitted, b2, s2, loop2, order, k', taken, g2, l2, end_reason) =
      waiting_loop-lem c time (len waiting) waiting b1 (iter waiting) refl
        (omega (arith, len-iter waiting)) k queued l1 in
    let all : b2.slices ≡ s1 ++ s2 = g2.more ∙ ap (λ xs. xs ++ s2) g1.more in
    let paid : b2.token_budget + tokens_of b2.slices ≡ c.max_num_batched_tokens =
      Grown-tokens b0 b2 (s1 ++ s2) (Grown-trans b0 b1 b2 s1 s2 g1 g2) refl in
    (
      record {
        instance_uuid = instance_uuid;
        iteration_id = iteration_id;
        start_time_ms = time;
        request_slices = b2.slices;
        scheduled_decode_tokens = 0;
      },
      waiting',
      updated ++ admitted,
      rw (loop1, loop2) refl,
      record {
        in_token_budget = within_budget b2.token_budget paid;
        in_seq_budget = l2;
        slices = s1;
        admitted_slices = s2;
        all_slices = all;
        updated = updated;
        firsts = firsts;
        admitted = admitted;
        chosen = chosen;
        first_come = order;
        taken = taken;
        now_running = refl;
        compact = k';
        ended = (b2, refl, paid, end_reason);
      },
    )
