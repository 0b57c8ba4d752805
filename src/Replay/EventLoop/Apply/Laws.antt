-- ===== src/Replay/EventLoop/Apply/Laws.antt =====
-- What the scheduler plans for a request can be applied to it at the end of the iteration.
use infer_twin.Base.{
  ℕ, ◌+◌, ◌-◌, ◌≤◌, ◌<◌, true, false, not, ◌&&◌, ◌||◌, List, [], Result, ok, arith, ◌≡◌, refl, sym,
  ◌∙◌, subst, ◌==◌, leb, ltb, Bool-cases, inl, inr, ◌⊎◌, >>=-eq-ok, ok-injective, if◌then◌else◌,
}
use infer_twin.Replay.EventLoop.{Engine}
use infer_twin.Replay.EventLoop.Apply.{apply_tokens, materialize_scheduled_chunk}
use infer_twin.Replay.EventLoop.Waits.{KvLoadTimingAccounting, record_scheduled_kv_load_timing}
use infer_twin.Replay.Iteration.{is_progressive, enter_chunk}
use infer_twin.Replay.KvTransfer.{SharedLinkFifoTransferQueue, check_request, submit}
use infer_twin.Replay.Metrics.Lookup.{LookupMetrics}
use infer_twin.Replay.Timeline.{TimelineMode}
use infer_twin.Request.Block.{PrefixBlock}
use infer_twin.Scheduler.BatchShape.{ScheduledSlice}
use infer_twin.Scheduler.Config.{SchedulerConfig}
use infer_twin.Scheduler.State.{
  RequestState, is_some, is_finished, finish, apply_load_only_iteration, record_kv_load_event,
  record_latency_contribution,
}
use infer_twin.Scheduler.State.Laws.{
  IsReady, Applied, rejected, applied, Advanced, remaining, pending, loaded, loaded-IsReady,
  ready-lookup, ready-remaining, apply_scheduled_tokens-Applied,
}
use infer_twin.Scheduler.VllmLike.Step.{IsPlanned, planned-bounds, slice_of}
use infer_twin.Scheduler.VllmLike.{Batch}

-- A request to which its slice was applied.
pub record SliceApplied (r : RequestState) (n : ℕ) (r' : RequestState) : Type 0 where
  pub ready : IsReady r'
  pub progress : r'.num_computed_tokens ≡ r.num_computed_tokens + n
  pub left : remaining r' ≡ remaining r - n
  pub ends : (0 < remaining r') ⊎ (is_finished r'.status ≡ true)

accepted :
    {x : RequestState} {n time : ℕ} {outcome : Result RequestState}
    → Applied x n time outcome
    → 0 < n
    → x.arrival_time_ms ≤ time
    → n ≤ remaining x
    → (x' : RequestState) × (outcome ≡ ok x') × Advanced x n time x'
accepted (rejected (inl e)) some_tokens in_time fits = absurd (omega (arith, e))
accepted (rejected (inr (inl early))) some_tokens in_time fits = absurd (omega (arith, early))
accepted (rejected (inr (inr over))) some_tokens in_time fits = absurd (omega (arith, over))
accepted (applied {r' = x'} p q l advanced) some_tokens in_time fits = (x', refl, advanced)

load_only-ok :
    (x : RequestState) (time : ℕ)
    → IsReady x
    → x.arrival_time_ms ≤ time
    → remaining x ≡ 0
    → apply_load_only_iteration time x
      ≡ ok (finish time (record x { scheduled_iteration_count = x.scheduled_iteration_count + 1 }))
unfolding apply_load_only_iteration
load_only-ok x time h in_time none_left =
    let early : ltb time x.arrival_time_ms ≡ false = ground arith in
    let rest : (remaining x == 0) ≡ true = ground arith in
    let l = ready-lookup x h in let e = ready-remaining x h in simp (l, early, rest)

loaded-same :
    (r : RequestState)
    → ((loaded r).num_computed_tokens ≡ r.num_computed_tokens)
      × ((loaded r).prompt_tokens ≡ r.prompt_tokens)
      × ((loaded r).arrival_time_ms ≡ r.arrival_time_ms)
loaded-same r = elim (Bool-cases (pending r)) [
  | inl load ↦ rw load (refl, refl, refl)
  | inr no_load ↦ rw no_load (refl, refl, refl)
]

enter_chunk-IsReady :
    (mode : TimelineMode) (x : RequestState) → IsReady x → IsReady (enter_chunk mode x)
enter_chunk-IsReady mode x h = record {
  looked_up = h.looked_up;
  counted = h.counted;
  cached = h.cached;
  computed = h.computed;
}

-- States that differ in times and waits only, as far as the scheduling of tokens goes.
record SameProgress (r x : RequestState) : Type 0 where
  looked_up : x.cache_lookup_done ≡ r.cache_lookup_done
  missed : x.miss_tokens ≡ r.miss_tokens
  cached : x.cached_tokens ≡ r.cached_tokens
  computed : x.num_computed_tokens ≡ r.num_computed_tokens
  prompt : x.prompt_tokens ≡ r.prompt_tokens
  arrival : x.arrival_time_ms ≡ r.arrival_time_ms

SameProgress-self : (r : RequestState) → SameProgress r r
SameProgress-self r = record {
  looked_up = refl;
  missed = refl;
  cached = refl;
  computed = refl;
  prompt = refl;
  arrival = refl;
}

SameProgress-IsReady : (r x : RequestState) → SameProgress r x → IsReady r → IsReady x
SameProgress-IsReady r x same h =
    let looked_up = same.looked_up in
    let missed = same.missed in
    let cached = same.cached in
    let computed = same.computed in
    let prompt = same.prompt in
    record {
      looked_up = looked_up ∙ h.looked_up;
      counted = subst (λ m. is_some m ≡ true) (sym missed) h.counted;
      cached = omega (arith, cached, computed, h.cached);
      computed = omega (arith, computed, prompt, h.computed);
    }

-- The timing of a load and the share of the latency change no counter of tokens.
latency-SameProgress :
    (prefill kv_load queue : ℕ) (r x : RequestState)
    → SameProgress r x
    → SameProgress r (record_latency_contribution prefill kv_load queue x)
unfolding record_latency_contribution
latency-SameProgress prefill kv_load queue r x h = record {
  looked_up = h.looked_up;
  missed = h.missed;
  cached = h.cached;
  computed = h.computed;
  prompt = h.prompt;
  arrival = h.arrival;
}

timing-SameProgress :
    (s : RequestState) (slice : ScheduledSlice) (kv_load_ms : ℕ) (mode : TimelineMode)
    (queue : SharedLinkFifoTransferQueue) (ready_time : ℕ) {t : KvLoadTimingAccounting}
    {x : RequestState} {q : SharedLinkFifoTransferQueue}
    → record_scheduled_kv_load_timing s slice kv_load_ms mode queue ready_time ≡ ok (t, x, q)
    → SameProgress s x
unfolding record_scheduled_kv_load_timing record_kv_load_event
timing-SameProgress s slice kv_load_ms mode queue ready_time h =
    elim (Bool-cases
      (not (is_progressive mode) || (slice.kv_load_tokens == 0 && slice.kv_load_bytes == 0))) [
        | inl no_load ↦
            ok-injective (λ y. SameProgress s y.1) (rw no_load at h) (SameProgress-self s)
        | inr load ↦
            let (request, checked, h1) = >>=-eq-ok (check_request _) _ (rw load at h) in
            let (sent, submitted, h2) = >>=-eq-ok (submit request queue) _ h1 in
            ok-injective (λ y. SameProgress s y.1) h2
              (record {
                looked_up = refl;
                missed = refl;
                cached = refl;
                computed = refl;
                prompt = refl;
                arrival = refl;
              })
      ]

module _ {ℓ} {C : Type ℓ} (e : Engine C) (lookup : LookupMetrics) (c : C) where
  -- the end of the iteration for a request whose slice was applied to its state: a load has nothing to
  -- make visible
  abbrev pub after_slice :
      ScheduledSlice → ℕ → RequestState → Result (List PrefixBlock × RequestState × C)
  after_slice slice time x' =
      if slice.scheduled_prefill_tokens == 0
      then ok ([], x', c)
      else materialize_scheduled_chunk e slice lookup time x' c

  abbrev AppliedTo : ScheduledSlice → ℕ → RequestState → Type ℓ
  AppliedTo s time x =
      (x' : RequestState) × (apply_tokens e s lookup time x c ≡ after_slice s time x')
      × SliceApplied x s.scheduled_prefill_tokens x'

  compute_slice :
      (s : ScheduledSlice) (time : ℕ) (x : RequestState)
      → IsReady x
      → 0 < s.scheduled_prefill_tokens
      → x.arrival_time_ms ≤ time
      → s.scheduled_prefill_tokens ≤ remaining x
      → AppliedTo s time x
  unfolding apply_tokens
  compute_slice s time x h some_tokens in_time fits =
      let n = s.scheduled_prefill_tokens in
      let mode = e.timeline_mode in
      let ready = enter_chunk-IsReady mode x h in
      let (x', done, advanced) =
        accepted (apply_scheduled_tokens-Applied (enter_chunk mode x) n time ready) some_tokens
          in_time fits in
      let nonzero : (n == 0) ≡ false = ground arith in
      let progress = advanced.progress in
      let same_prompt = advanced.same_prompt in
      (
        x',
        rw (nonzero, done) refl,
        record {
          ready = advanced.ready;
          progress = progress;
          left = omega (arith, progress, same_prompt);
          ends = elim advanced.ends [ inl end ↦ inr end.1 | inr more ↦ inl more.0 ];
        },
      )

  load_slice :
      (s : ScheduledSlice) (time : ℕ) (x : RequestState)
      → IsReady x
      → s.scheduled_prefill_tokens ≡ 0
      → x.arrival_time_ms ≤ time
      → remaining x ≡ 0
      → AppliedTo s time x
  unfolding apply_tokens
  load_slice s time x h none_planned in_time none_left =
      let zero_tokens : (s.scheduled_prefill_tokens == 0) ≡ true = ground arith in
      let total = load_only-ok x time h in_time none_left in
      (
        finish time (record x { scheduled_iteration_count = x.scheduled_iteration_count + 1 }),
        rw (zero_tokens, total) refl,
        record {
          ready = record {
            looked_up = h.looked_up;
            counted = h.counted;
            cached = h.cached;
            computed = h.computed;
          };
          progress = omega (arith, none_planned);
          left = omega (arith, none_planned);
          ends = inr refl;
        },
      )

SliceApplied-same :
    (r x x' : RequestState) (n : ℕ)
    → x.num_computed_tokens ≡ r.num_computed_tokens
    → x.prompt_tokens ≡ r.prompt_tokens
    → SliceApplied x n x'
    → SliceApplied r n x'
SliceApplied-same r x x' n computed prompt a =
    let progress = a.progress in
    let left = a.left in
    record {
      ready = a.ready;
      progress = omega (arith, computed, progress);
      left = omega (arith, computed, prompt, left);
      ends = a.ends;
    }

-- Whatever the scheduler plans for a ready request is accepted at the end of the iteration, which is
-- not before the request's arrival: `r` is the request before it is scheduled, `loaded r` and `slice_of
-- r n` what the scheduler leaves of it and makes for it, and `s1` the state once the load is timed. Then
-- the slice is applied to the request without an exception, and what is left to do is to make the
-- completed blocks visible, if it has tokens. The request is then ready, has computed the planned
-- tokens more, so that these are gone from what remains, and is finished if nothing remains.
pub apply_tokens-SliceApplied {ℓ} :
    {C : Type ℓ} (e : Engine C) (lookup : LookupMetrics) (cache : C) (config : SchedulerConfig)
    (r : RequestState) (b : Batch) (n time : ℕ) (prefill kv_load queue_ms ready_time : ℕ)
    (queue : SharedLinkFifoTransferQueue) {t : KvLoadTimingAccounting} {s1 : RequestState}
    {q : SharedLinkFifoTransferQueue}
    → IsReady r
    → IsPlanned config r b n
    → r.arrival_time_ms ≤ time
    → record_scheduled_kv_load_timing
        (loaded r)
        (slice_of r n)
        kv_load
        e.timeline_mode
        queue
        ready_time
      ≡ ok (t, s1, q)
    → (r' : RequestState) × (apply_tokens e
          (slice_of r n)
          lookup
          time
          (record_latency_contribution prefill kv_load queue_ms s1)
          cache
        ≡ after_slice e lookup cache (slice_of r n) time r')
      × SliceApplied r n r'
apply_tokens-SliceApplied e lookup cache config r b n time prefill kv_load queue_ms ready_time queue
      {s1 = s1} h p in_time timed =
    let x = record_latency_contribution prefill kv_load queue_ms s1 in
    let same = latency-SameProgress prefill kv_load queue_ms (loaded r) s1 (
      timing-SameProgress (loaded r) (slice_of r n) kv_load e.timeline_mode queue ready_time
        timed) in
    let (computed0, prompt0, arrival0) = loaded-same r in
    let computed : x.num_computed_tokens ≡ r.num_computed_tokens = same.computed ∙ computed0 in
    let prompt : x.prompt_tokens ≡ r.prompt_tokens = same.prompt ∙ prompt0 in
    let arrival : x.arrival_time_ms ≡ r.arrival_time_ms = same.arrival ∙ arrival0 in
    let (in_budget, needed) = planned-bounds config r b.token_budget in
    let fits : n ≤ remaining r = rw p.plan needed in
    let work = p.work in
    let ready = SameProgress-IsReady (loaded r) x same (loaded-IsReady r h) in
    let early : x.arrival_time_ms ≤ time = omega (arith, arrival) in
    elim (Bool-cases (leb n 0)) [
      | inr some_tokens ↦
          let (r', done, a) =
            compute_slice e lookup cache (slice_of r n) time x ready (ground arith) early
              (omega (arith, computed, prompt)) in
          (r', done, SliceApplied-same r x r' n computed prompt a)
      | inl none_planned ↦
          let none_left : remaining r ≡ 0 = ground arith in
          let (r', done, a) =
            load_slice e lookup cache (slice_of r n) time x ready (ground arith) early
              (omega (arith, computed, prompt, none_left)) in
          (r', done, SliceApplied-same r x r' n computed prompt a)
    ]
