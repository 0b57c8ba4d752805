-- ===== src/Scheduler/VllmLike/Step.antt =====
-- What the scheduler does at one request that has been looked up.
use infer_twin.Base.{
  ℕ, ◌+◌, ◌-◌, ◌≤◌, ◌<◌, Bool, true, false, ◌&&◌, not, [], ◌∷◌, ◌++◌, ok, arith, ◌≡◌, refl,
  if◌then◌else◌, leb, ltb, ◌==◌, length, Bool-cases, inl, inr,
}
use infer_twin.Scheduler.BatchShape.{ScheduledSlice, check_slice}
use infer_twin.Scheduler.Config.{SchedulerConfig, plan_remaining, planned_prefill_tokens}
use infer_twin.Scheduler.State.{RequestState, is_running, is_waiting}
use infer_twin.Scheduler.State.Laws.{
  IsReady, remaining, pending, loaded, ready-remaining, ready-pending, ready-consume,
}
use infer_twin.Scheduler.VllmLike.{
  Batch, can_schedule_load_only, slice_for, Decision, stop, skip, schedule_tokens, decide_running,
  decide_waiting, add_to_batch,
}

-- nothing to compute, but a load to wait for
abbrev pub load_only : RequestState → Bool
load_only r = if remaining r == 0 then pending r else false

-- the tokens that a request gets of a budget
abbrev pub planned : SchedulerConfig → RequestState → ℕ → ℕ
planned c r budget = if leb budget 0 then 0 else plan_remaining c (remaining r) budget

abbrev pub slice_of : RequestState → ℕ → ScheduledSlice
slice_of r n = record {
  request_id = r.request_id;
  scheduled_prefill_tokens = n;
  computed_tokens_before = r.num_computed_tokens;
  computed_tokens_after = r.num_computed_tokens + n;
  prompt_tokens = r.prompt_tokens;
  cached_prefix_tokens = r.cached_tokens;
  previous_chunk_tokens = r.num_computed_tokens - r.cached_tokens;
  kv_load_tokens = if pending r then r.pending_kv_load_tokens else 0;
  kv_load_bytes = if pending r then r.pending_kv_load_bytes else 0;
}

pub planned-bounds :
    (c : SchedulerConfig) (r : RequestState) (budget : ℕ)
    → (planned c r budget ≤ budget) × (planned c r budget ≤ remaining r)
unfolding plan_remaining
planned-bounds c r budget = ground arith

pub ready-load_only : (r : RequestState) → IsReady r → can_schedule_load_only r ≡ ok (load_only r)
unfolding can_schedule_load_only
ready-load_only r h =
    let e = ready-remaining r h in
    let p = ready-pending r h in
    rw e (elim (Bool-cases (remaining r == 0)) [ inl z ↦ rw (z, p) refl | inr n ↦ rw n refl ])

pub ready-planned :
    (c : SchedulerConfig) (r : RequestState) (budget : ℕ)
    → IsReady r
    → planned_prefill_tokens c r budget ≡ ok (planned c r budget)
unfolding planned_prefill_tokens
ready-planned c r budget h =
    let e = ready-remaining r h in
    elim (Bool-cases (leb budget 0)) [ inl z ↦ rw z refl | inr n ↦ rw (n, e) refl ]

slice-work :
    (r : RequestState) (n : ℕ)
    → (leb n 0 && not (load_only r)) ≡ false
    → (n == 0 && ((slice_of r n).kv_load_tokens == 0 && (slice_of r n).kv_load_bytes == 0)) ≡ false
slice-work r n some_work = ground arith

pub slice_of-check :
    (r : RequestState) (n : ℕ)
    → IsReady r
    → n ≤ remaining r
    → (leb n 0 && not (load_only r)) ≡ false
    → check_slice (slice_of r n) ≡ ok (slice_of r n)
unfolding check_slice
slice_of-check r n h fits some_work =
    let before : (r.num_computed_tokens
          == r.cached_tokens + (r.num_computed_tokens - r.cached_tokens))
        ≡ true =
      ground arith in
    let after : (r.num_computed_tokens + n == r.num_computed_tokens + n) ≡ true = ground arith in
    let within : ltb r.prompt_tokens (r.num_computed_tokens + n) ≡ false = ground arith in
    rw (slice-work r n some_work, before, after, within) refl

-- A slice is made when the tokens are there and it is not empty.
pub slice_for-ready :
    (r : RequestState) (n : ℕ)
    → IsReady r
    → n ≤ remaining r
    → (leb n 0 && not (load_only r)) ≡ false
    → slice_for r n ≡ ok (slice_of r n, loaded r)
unfolding slice_for
slice_for-ready r n h fits some_work =
    let ordered : ltb r.num_computed_tokens r.cached_tokens ≡ false = ground arith in
    let valid = slice_of-check r n h fits some_work in
    let consumed = ready-consume r h in rw (ordered, consumed, valid) refl

pub add_to_batch-ready :
    (r : RequestState) (n : ℕ) (b : Batch)
    → IsReady r
    → n ≤ remaining r
    → (leb n 0 && not (load_only r)) ≡ false
    → add_to_batch r n b
      ≡ ok (
        loaded r,
        record { slices = b.slices ++ slice_of r n ∷ []; token_budget = b.token_budget - n },
      )
unfolding add_to_batch
add_to_batch-ready r n b h fits some_work = rw (slice_for-ready r n h fits some_work) refl

-- The request gets its planned tokens: no more than the budget and than it needs, and some work.
pub record IsPlanned (c : SchedulerConfig) (r : RequestState) (b : Batch) (n : ℕ) : Type 0 where
  pub plan : n ≡ planned c r b.token_budget
  pub work : (leb n 0 && not (load_only r)) ≡ false
  pub room : length b.slices < c.max_num_seqs

-- The request gets no token of the budget that is left, and is not one with only a load left.
pub record IsBlocked (c : SchedulerConfig) (r : RequestState) (budget : ℕ) : Type 0 where
  pub no_tokens : planned c r budget ≡ 0
  pub no_load : load_only r ≡ false

pub data RunningDecision (c : SchedulerConfig) (r : RequestState) (b : Batch)
    : Decision → Type 0 where
  full : c.max_num_seqs ≤ length b.slices → RunningDecision c r b stop
  exhausted : b.token_budget ≡ 0 → IsBlocked c r b.token_budget → RunningDecision c r b stop
  not_running : is_running r.status ≡ false → RunningDecision c r b skip
  blocked : IsBlocked c r b.token_budget → RunningDecision c r b skip
  chosen :
      {n : ℕ}
      → is_running r.status ≡ true
      → IsPlanned c r b n
      → RunningDecision c r b (schedule_tokens n)

planned-zero : (c : SchedulerConfig) (r : RequestState) (t : ℕ) → leb t 0 ≡ true → planned c r t ≡ 0
planned-zero c r t h = rw h refl

-- without the status and the room
pub decide_running-lem :
    (c : SchedulerConfig) (r : RequestState) (b : Batch)
    → IsReady r
    → (d : Decision) × (decide_running c r b ≡ ok d) × RunningDecision c r b d
unfolding decide_running
decide_running-lem c r b h =
    let l = ready-load_only r h in
    let p = ready-planned c r b.token_budget h in
    elim (Bool-cases (leb c.max_num_seqs (length b.slices))) [
      | inl f ↦ (stop, rw f refl, full (ground arith))
      | inr room ↦ elim (Bool-cases (is_running r.status)) [
        | inr other ↦ (skip, rw (room, other) refl, not_running other)
        | inl run ↦ elim (Bool-cases (leb b.token_budget 0 && not (load_only r))) [
          | inl over ↦ (
            stop,
            rw (room, run, l, over) refl,
            exhausted (ground arith) (record {
              no_tokens = planned-zero c r b.token_budget (ground arith);
              no_load = ground arith;
            }),
          )
          | inr goes ↦ elim (Bool-cases (leb (planned c r b.token_budget) 0 && not (load_only r))) [
            | inl none_for ↦ (
              skip,
              rw (room, run, l, goes, p, none_for) refl,
              blocked (record { no_tokens = ground arith; no_load = ground arith }),
            )
            | inr some_for ↦ (
              schedule_tokens (planned c r b.token_budget),
              rw (room, run, l, goes, p, some_for) refl,
              chosen run (record { plan = refl; work = some_for; room = ground arith }),
            )
          ]
        ]
      ]
    ]

pub data WaitingDecision (c : SchedulerConfig) (r : RequestState) (b : Batch)
    : Decision → Type 0 where
  waits : IsBlocked c r b.token_budget → WaitingDecision c r b stop
  admitted : {n : ℕ} → IsPlanned c r b n → WaitingDecision c r b (schedule_tokens n)

pub decide_waiting-lem :
    (c : SchedulerConfig) (r : RequestState) (b : Batch)
    → IsReady r
    → is_waiting r.status ≡ true
    → length b.slices < c.max_num_seqs
    → (d : Decision) × (decide_waiting c r b ≡ ok d) × WaitingDecision c r b d
unfolding decide_waiting
decide_waiting-lem c r b h w room =
    let l = ready-load_only r h in
    let p = ready-planned c r b.token_budget h in
    let up : (leb b.token_budget 0 && not r.cache_lookup_done) ≡ false =
      rw h.looked_up (ground arith) in
    elim (Bool-cases (leb b.token_budget 0 && not (load_only r))) [
      | inl over ↦ (
        stop,
        rw (w, up, l, over) refl,
        waits (record {
          no_tokens = planned-zero c r b.token_budget (ground arith);
          no_load = ground arith;
        }),
      )
      | inr goes ↦ elim (Bool-cases (leb (planned c r b.token_budget) 0 && not (load_only r))) [
        | inl none_for ↦ (
          stop,
          rw (w, up, l, goes, p, none_for) refl,
          waits (record { no_tokens = ground arith; no_load = ground arith }),
        )
        | inr some_for ↦ (
          schedule_tokens (planned c r b.token_budget),
          rw (w, up, l, goes, p, some_for) refl,
          admitted (record { plan = refl; work = some_for; room = room }),
        )
      ]
    ]
