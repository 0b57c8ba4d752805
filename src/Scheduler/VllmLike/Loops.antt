-- ===== src/Scheduler/VllmLike/Loops.antt =====
-- The two loops of `schedule`, on requests that have been looked up.
use infer_twin.Base.{
  ℕ, zero, suc, ◌+◌, ◌-◌, ◌≤◌, ◌<◌, true, false, ◌&&◌, not, List, [], ◌∷◌, ◌++◌, ok, arith, ◌≡◌,
  refl, sym, ap, ◌∙◌, ltb, length, sum_by, length-append, All, append-nil, append_assoc, Bool-cases,
  inl, inr, ◌⊎◌,
}
use infer_twin.Scheduler.BatchShape.{ScheduledSlice, check_slice}
use infer_twin.Scheduler.Config.{SchedulerConfig}
use infer_twin.Scheduler.Queue.{WaitingQueue, len, iter}
use infer_twin.Scheduler.Queue.Laws.{IsCompact, len-iter, popleft-refines, get_item-front}
use infer_twin.Scheduler.State.{RequestState, is_running, is_waiting}
use infer_twin.Scheduler.State.Laws.{IsReady, remaining, loaded}
use infer_twin.Scheduler.VllmLike.{
  Batch, Decision, stop, skip, schedule_tokens, decide_running, decide_waiting, running_loop,
  waiting_loop, admit,
}
use infer_twin.Scheduler.VllmLike.Step.{
  IsBlocked, RunningDecision, WaitingDecision, chosen, waits, admitted, slice_of, planned-bounds,
  slice_of-check, add_to_batch-ready, decide_running-lem, decide_waiting-lem,
}

abbrev pub tokens_of : List ScheduledSlice → ℕ
tokens_of = sum_by (λ s. s.scheduled_prefill_tokens)

-- Requests, what an iteration makes of them, and their slices: at most one for each, in the order of
-- the requests, of no more tokens than the request needs.
pub data Selected : List RequestState → List RequestState → List ScheduledSlice → Type 0 where
  none_left : Selected [] [] []
  passed_over :
      {r : RequestState} {rs rs' : List RequestState} {slices : List ScheduledSlice}
      → Selected rs rs' slices
      → Selected (r ∷ rs) (r ∷ rs') slices
  selected :
      {r : RequestState} {rs rs' : List RequestState} {slices : List ScheduledSlice} (n : ℕ)
      → IsReady r
      → is_running r.status ≡ true
      → n ≤ remaining r
      → check_slice (slice_of r n) ≡ ok (slice_of r n)
      → Selected rs rs' slices
      → Selected (r ∷ rs) (loaded r ∷ rs') (slice_of r n ∷ slices)

-- The requests at the front of the queue, all of them admitted with a slice each.
pub data Admitted (time : ℕ)
    : List RequestState → List RequestState → List ScheduledSlice → Type 0 where
  no_more : Admitted time [] [] []
  admitted_next :
      {r : RequestState} {rs rs' : List RequestState} {slices : List ScheduledSlice} (n : ℕ)
      → IsReady r
      → n ≤ remaining r
      → check_slice (slice_of (admit time r) n) ≡ ok (slice_of (admit time r) n)
      → Admitted time rs rs' slices
      → Admitted time (r ∷ rs) (loaded (admit time r) ∷ rs') (slice_of (admit time r) n ∷ slices)

-- A batch that grew by the slices, which were paid for.
pub record Grown (b : Batch) (slices : List ScheduledSlice) (b' : Batch) : Type 0 where
  pub more : b'.slices ≡ b.slices ++ slices
  pub paid : b'.token_budget + tokens_of slices ≡ b.token_budget

passed_over-all : (rs : List RequestState) → Selected rs rs []
passed_over-all [] = none_left
passed_over-all (r ∷ rs) = passed_over (passed_over-all rs)

Grown-none : (b : Batch) → Grown b [] b
Grown-none b = record { more = sym (append-nil b.slices); paid = omega arith }

-- the batch with one slice more
abbrev with_slice : ScheduledSlice → Batch → Batch
with_slice s b = record {
  slices = b.slices ++ s ∷ [];
  token_budget = b.token_budget - s.scheduled_prefill_tokens;
}

Grown-slice :
    (s : ScheduledSlice) (slices : List ScheduledSlice) (b b' : Batch)
    → s.scheduled_prefill_tokens ≤ b.token_budget
    → Grown (with_slice s b) slices b'
    → Grown b (s ∷ slices) b'
Grown-slice s slices b b' fits g = record {
  more = g.more ∙ append_assoc b.slices (s ∷ []) slices;
  paid = let e = g.paid in omega (arith, e, fits);
}

abbrev pub RunningDone : SchedulerConfig → List RequestState → Batch → Type 0
RunningDone c rs b =
    (rs' : List RequestState) × (b' : Batch) × (slices : List ScheduledSlice) × (running_loop c rs b
      ≡ ok (rs', b'))
    × Selected rs rs' slices
    × Grown b slices b'
    × (length b'.slices ≤ c.max_num_seqs)

running_loop-turn :
    (c : SchedulerConfig) (r : RequestState) (rs : List RequestState) (b : Batch) (d : Decision)
    → IsReady r
    → length b.slices ≤ c.max_num_seqs
    → decide_running c r b ≡ ok d
    → RunningDecision c r b d
    → ((b1 : Batch) → length b1.slices ≤ c.max_num_seqs → RunningDone c rs b1)
    → RunningDone c (r ∷ rs) b
unfolding running_loop
running_loop-turn c r rs b stop h l e dec rest =
    (r ∷ rs, b, [], rw e refl, passed_over-all (r ∷ rs), Grown-none b, l)
running_loop-turn c r rs b skip h l e dec rest =
    let (rs', b', slices, loop, sel, g, l') = rest b l in
    (r ∷ rs', b', slices, rw (e, loop) refl, passed_over sel, g, l')
running_loop-turn c r rs b (schedule_tokens n) h l e (chosen run p) rest =
    let (in_budget, needed) = planned-bounds c r b.token_budget in
    let fits : n ≤ remaining r = rw p.plan needed in
    let affordable : n ≤ b.token_budget = rw p.plan in_budget in
    let b1 = with_slice (slice_of r n) b in
    let room = p.room in
    let l1 : length b1.slices ≤ c.max_num_seqs =
      omega (arith, length-append b.slices (slice_of r n ∷ []), room) in
    let (rs', b', slices, loop, sel, g, l') = rest b1 l1 in
    let added = add_to_batch-ready r n b h fits p.work in
    (
      loaded r ∷ rs',
      b',
      slice_of r n ∷ slices,
      rw (e, added, loop) refl,
      selected n h run fits (slice_of-check r n h fits p.work) sel,
      Grown-slice (slice_of r n) slices b b' affordable g,
      l',
    )

pub running_loop-lem :
    (c : SchedulerConfig) (rs : List RequestState) (b : Batch)
    → All IsReady rs
    → length b.slices ≤ c.max_num_seqs
    → RunningDone c rs b
unfolding running_loop
running_loop-lem c [] b a l = ([], b, [], refl, none_left, Grown-none b, l)
running_loop-lem c (r ∷ rs) b (h, a) l =
    let (d, e, dec) = decide_running-lem c r b h in
    running_loop-turn c r rs b d h l e dec (λ b1 l1. running_loop-lem c rs b1 a l1)

-- Why the loop over the waiting requests ended.
pub data Ended (c : SchedulerConfig) (q : List RequestState) (b : Batch) : Type 0 where
  all_admitted : q ≡ [] → Ended c q b
  no_seats : c.max_num_seqs ≤ length b.slices → Ended c q b
  first_blocked :
      (r : RequestState) (rs : List RequestState)
      → q ≡ r ∷ rs
      → IsBlocked c r b.token_budget
      → Ended c q b

-- A request that waits and has been looked up.
pub record IsQueued (r : RequestState) : Type 0 where
  pub ready : IsReady r
  pub waits_for : is_waiting r.status ≡ true

abbrev pub WaitingDone :
    SchedulerConfig → (time : ℕ) → (fuel : ℕ) → WaitingQueue RequestState → Batch → Type 0
WaitingDone c time fuel q b =
    (q' : WaitingQueue RequestState) × (firsts : List RequestState) × (rs' : List RequestState)
    × (b' : Batch) × (slices : List ScheduledSlice) × (waiting_loop c time fuel q b
        ≡ ok (q', rs', b'))
    × (iter q ≡ firsts ++ iter q')
    × IsCompact q'
    × Admitted time firsts rs' slices
    × Grown b slices b'
    × (length b'.slices ≤ c.max_num_seqs)
    × Ended c (iter q') b'

admit-IsReady : (time : ℕ) (r : RequestState) → IsReady r → IsReady (admit time r)
unfolding admit
admit-IsReady time r h = record {
  looked_up = h.looked_up;
  counted = h.counted;
  cached = h.cached;
  computed = h.computed;
}

goes_on :
    (q : WaitingQueue RequestState) (b : Batch) (r : RequestState) (rs : List RequestState)
    (c : SchedulerConfig)
    → iter q ≡ r ∷ rs
    → length b.slices < c.max_num_seqs
    → not (ltb 0 (len q) && ltb (length b.slices) c.max_num_seqs) ≡ false
goes_on q b r rs c e room = let count = len-iter q in ground arith

idle :
    (q : WaitingQueue RequestState) (b : Batch) (c : SchedulerConfig)
    → (iter q ≡ []) ⊎ (c.max_num_seqs ≤ length b.slices)
    → (ltb 0 (len q) && ltb (length b.slices) c.max_num_seqs) ≡ false
idle q b c (inl e) = let count = len-iter q in ground arith
idle q b c (inr full_up) = ground arith

waiting_loop-turn :
    (c : SchedulerConfig) (time fuel : ℕ) (q : WaitingQueue RequestState) (b : Batch)
    (r : RequestState) (rs : List RequestState) (d : Decision)
    → iter q ≡ r ∷ rs
    → IsCompact q
    → IsQueued r
    → length b.slices < c.max_num_seqs
    → decide_waiting c r b ≡ ok d
    → WaitingDecision c r b d
    → ((q1 : WaitingQueue RequestState) (b1 : Batch)
        → iter q1 ≡ rs
        → IsCompact q1
        → length b1.slices ≤ c.max_num_seqs
        → WaitingDone c time fuel q1 b1)
    → WaitingDone c time (suc fuel) q b
unfolding waiting_loop admit
waiting_loop-turn c time fuel q b r rs stop e k h room dec (waits w) rest = (
  q,
  [],
  [],
  b,
  [],
  rw (goes_on q b r rs c e room, get_item-front q r rs k e, dec) refl,
  refl,
  k,
  no_more,
  Grown-none b,
  omega (arith, room),
  first_blocked r rs e w,
)
waiting_loop-turn c time fuel q b r rs skip e k h room dec never rest = elim never [ ]
waiting_loop-turn c time fuel q b r rs (schedule_tokens n) e k h room dec (admitted p) rest =
    let (in_budget, needed) = planned-bounds c r b.token_budget in
    let fits : n ≤ remaining r = rw p.plan needed in
    let affordable : n ≤ b.token_budget = rw p.plan in_budget in
    let r1 : RequestState = admit time r in
    let ready1 : IsReady r1 = admit-IsReady time r h.ready in
    let b1 : Batch = with_slice (slice_of r1 n) b in
    let l1 : length b1.slices ≤ c.max_num_seqs =
      omega (arith, length-append b.slices (slice_of r1 n ∷ []), room) in
    let (q1, popped, same, k1) = popleft-refines q r rs k e in
    let (q', firsts, rs', b', slices, loop, order, k', adm, g, l', end_reason) =
      rest q1 b1 same k1 l1 in
    let added = add_to_batch-ready r1 n b ready1 fits p.work in
    (
      q',
      r ∷ firsts,
      loaded r1 ∷ rs',
      b',
      slice_of r1 n ∷ slices,
      rw (goes_on q b r rs c e room, get_item-front q r rs k e, dec, popped, added, loop) refl,
      e ∙ ap (λ xs. r ∷ xs) (sym same ∙ order),
      k',
      admitted_next n h.ready fits (slice_of-check r1 n ready1 fits p.work) adm,
      Grown-slice (slice_of r1 n) slices b b' affordable g,
      l',
      end_reason,
    )

pub waiting_loop-lem :
    (c : SchedulerConfig) (time fuel : ℕ) (q : WaitingQueue RequestState) (b : Batch)
    (rs : List RequestState)
    → iter q ≡ rs
    → length rs ≤ fuel
    → IsCompact q
    → All IsQueued rs
    → length b.slices ≤ c.max_num_seqs
    → WaitingDone c time fuel q b
unfolding waiting_loop
waiting_loop-lem c time zero q b [] e enough k a l =
    let stopped = idle q b c (inl e) in
    (q, [], [], b, [], rw stopped refl, refl, k, no_more, Grown-none b, l, all_admitted e)
waiting_loop-lem c time zero q b (r ∷ rs) e enough k a l = absurd (omega arith)
waiting_loop-lem c time (suc fuel) q b [] e enough k a l =
    let stopped = idle q b c (inl e) in
    (q, [], [], b, [], rw stopped refl, refl, k, no_more, Grown-none b, l, all_admitted e)
waiting_loop-lem c time (suc fuel) q b (r ∷ rs) e enough k (h, a) l =
    elim (Bool-cases (ltb (length b.slices) c.max_num_seqs)) [
      | inr none_free ↦
          let taken : c.max_num_seqs ≤ length b.slices = ground arith in
          let stopped = idle q b c (inr taken) in
          (q, [], [], b, [], rw stopped refl, refl, k, no_more, Grown-none b, l, no_seats taken)
      | inl free ↦
          let room : length b.slices < c.max_num_seqs = ground arith in
          let (d, dec, why) = decide_waiting-lem c r b h.ready h.waits_for room in
          waiting_loop-turn c time fuel q b r rs d e k h room dec why
            (λ q1 b1 e1 k1 l1. waiting_loop-lem c time fuel q1 b1 rs e1 (omega arith) k1 a l1)
    ]
