-- ===== src/Scheduler/VllmLike/Progress.antt =====
-- An iteration does some work.
use infer_twin.Base.{
  ℕ, ◌+◌, ◌<◌, String, true, false, not, List, [], ◌∷◌, ◌++◌, Option, none, some, ok, arith, ◌≡◌,
  refl, sym, ap, ◌∙◌, length, leb, All, passed, Bool-cases, length-append, inl, inr, sum_by, ◌==◌,
  str_eq,
}
use infer_twin.Scheduler.BatchShape.{
  ScheduledSlice, BatchShape, batch_size, scheduled_prefill_tokens,
}
use infer_twin.Scheduler.Config.{
  SchedulerConfig, check_config, threshold_ok, limit_by, plan_remaining, per_request_chunk_limit,
}
use infer_twin.Scheduler.Queue.{WaitingQueue, iter}
use infer_twin.Scheduler.Queue.Laws.{IsCompact}
use infer_twin.Scheduler.State.{RequestState}
use infer_twin.Scheduler.State.Laws.{remaining}
use infer_twin.Scheduler.VllmLike.{Batch, schedule, is_empty}
use infer_twin.Scheduler.VllmLike.Laws.{Scheduled, schedule-Scheduled}
use infer_twin.Scheduler.VllmLike.Loops.{
  Admitted, no_more, admitted_next, IsQueued, Ended, all_admitted, no_seats, first_blocked,
}
use infer_twin.Scheduler.VllmLike.Step.{planned}

-- What a configuration that passes its check has.
record IsChecked (c : SchedulerConfig) : Type 0 where
  tokens : 0 < c.max_num_batched_tokens
  seqs : 0 < c.max_num_seqs
  threshold : threshold_ok c.long_prefill_token_threshold ≡ true

check_config-IsChecked : (c : SchedulerConfig) → check_config c ≡ ok c → IsChecked c
unfolding check_config
check_config-IsChecked c h =
    let (t, h1) = passed (leb c.max_num_batched_tokens 0) h in
    let (s, h2) = passed (leb c.max_num_seqs 0) h1 in
    let (p, h3) = passed (not (str_eq c.policy "fcfs")) h2 in
    let (l, h4) = passed (not (threshold_ok c.long_prefill_token_threshold)) h3 in
    record { tokens = ground arith; seqs = ground arith; threshold = ground arith }

limit_by-positive :
    (budget : ℕ) (threshold : Option ℕ)
    → 0 < budget
    → threshold_ok threshold ≡ true
    → 0 < limit_by budget threshold
limit_by-positive budget none h t = h
limit_by-positive budget (some n) h t = ground arith

limit-positive : (c : SchedulerConfig) → IsChecked c → 0 < per_request_chunk_limit c
unfolding per_request_chunk_limit
limit-positive c h =
    let tokens = h.tokens in
    let limit =
      limit_by-positive c.max_num_batched_tokens c.long_prefill_token_threshold h.tokens
        h.threshold in
    ground arith

-- With chunks a request that has tokens left gets some of a budget.
planned-positive :
    (c : SchedulerConfig) (r : RequestState) (budget : ℕ)
    → IsChecked c
    → c.enable_chunked_prefill ≡ true
    → 0 < remaining r
    → 0 < budget
    → 0 < planned c r budget
unfolding plan_remaining
planned-positive c r budget h chunks left some_budget =
    let limit = limit-positive c h in ground arith

-- A batch without slices admitted nobody.
Admitted-none :
    {time : ℕ} {firsts rs : List RequestState} {slices : List ScheduledSlice}
    → Admitted time firsts rs slices
    → length slices ≡ 0
    → firsts ≡ []
Admitted-none no_more e = refl
Admitted-none (admitted_next n h fits valid rest) e = absurd (omega (arith, e))

first_of : RequestState → List RequestState → RequestState
first_of r [] = r
first_of r (x ∷ xs) = x

blocked-never :
    (c : SchedulerConfig) (r : RequestState) (rs q : List RequestState) (b : Batch)
    → IsChecked c
    → c.enable_chunked_prefill ≡ true
    → 0 < remaining r
    → 0 < b.token_budget
    → length b.slices ≡ 0
    → q ≡ r ∷ rs
    → Ended c q b
    → ⊥
unfolding first_of
blocked-never c r rs q b h chunks left budget none_yet e (all_admitted e') = cc
blocked-never c r rs q b h chunks left budget none_yet e (no_seats taken) =
    let seats = h.seqs in omega (arith, seats)
blocked-never c r rs q b h chunks left budget none_yet e (first_blocked r' rs' e' w) =
    let same : r' ≡ r = ap (first_of r) (sym e' ∙ e) in
    let nothing : planned c r b.token_budget ≡ 0 =
      sym (ap (λ x. planned c x b.token_budget) same) ∙ w.no_tokens in
    omega (arith, nothing, planned-positive c r b.token_budget h chunks left budget)

no_slices-tokens :
    (slices : List ScheduledSlice)
    → length slices ≡ 0
    → sum_by (λ x. x.scheduled_prefill_tokens) slices ≡ 0
no_slices-tokens [] e = refl
no_slices-tokens (s ∷ slices) e = absurd (omega (arith, e))

empty-never :
    (c : SchedulerConfig) (time : ℕ) (waiting : WaitingQueue RequestState) (r : RequestState)
    (rs : List RequestState) (shape : BatchShape) (waiting' : WaitingQueue RequestState)
    (running' : List RequestState)
    → IsChecked c
    → c.enable_chunked_prefill ≡ true
    → iter waiting ≡ r ∷ rs
    → 0 < remaining r
    → Scheduled c time waiting [] shape waiting' running'
    → length shape.request_slices ≡ 0
    → ⊥
unfolding scheduled_prefill_tokens
empty-never c time waiting r rs shape waiting' running' h chunks e left s none_there =
    let (b, same, paid, end_reason) = s.ended in
    let parts = s.all_slices in
    let counts : length s.slices + length s.admitted_slices ≡ 0 =
      omega (arith, none_there, ap length parts, length-append s.slices s.admitted_slices) in
    let nobody = Admitted-none s.taken (omega (arith, counts)) in
    let stays : iter waiting' ≡ r ∷ rs =
      sym (ap (λ xs. xs ++ iter waiting') nobody) ∙ sym s.first_come ∙ e in
    let spent : sum_by (λ x. x.scheduled_prefill_tokens) shape.request_slices ≡ 0 =
      no_slices-tokens shape.request_slices none_there in
    let budget = h.tokens in
    blocked-never c r rs (iter waiting') b h chunks left (omega (arith, paid, spent, budget))
      (ap length same ∙ none_there) stays end_reason

-- With a configuration that passes its check and allows chunks, when nothing runs and a compact queue
-- holds waiting requests that have been looked up, the first of them with tokens to compute,
-- `schedule` returns a batch that is not empty.
pub schedule-progress :
    (c : SchedulerConfig) (instance_uuid : String) (iteration_id time : ℕ)
    (waiting : WaitingQueue RequestState) (r : RequestState) (rs : List RequestState)
    → check_config c ≡ ok c
    → c.enable_chunked_prefill ≡ true
    → IsCompact waiting
    → All IsQueued (iter waiting)
    → iter waiting ≡ r ∷ rs
    → 0 < remaining r
    → (shape : BatchShape) × (waiting' : WaitingQueue RequestState) × (running' : List RequestState)
      × (schedule c instance_uuid iteration_id time waiting [] ≡ ok (shape, waiting', running'))
      × (is_empty shape ≡ false)
unfolding is_empty batch_size
schedule-progress c instance_uuid iteration_id time waiting r rs h chunks k queued e left =
    let (shape, waiting', running', total, s) =
      schedule-Scheduled c instance_uuid iteration_id time waiting [] k queued tt in
    (
      shape,
      waiting',
      running',
      total,
      elim (Bool-cases (length shape.request_slices == 0)) [
        | inr some_slice ↦ some_slice
        | inl none_there ↦ absurd (
            empty-never c time waiting r rs shape waiting' running' (check_config-IsChecked c h)
              chunks e left s (ground arith))
      ],
    )
