-- ===== src/Replay/EventLoop/Waits/Laws.antt =====
-- The time that an iteration makes other requests wait is attributed to them, once each.
use infer_twin.Base.{
  Bool, true, false, if◌then◌else◌, subst, ℕ, zero, suc, ◌+◌, ◌*◌, ◌<◌, String, List, [], ◌∷◌, map,
  ok, ◌≡◌, refl, sym, ap, ◌∙◌, arith, All, All-imp, length, sum_by, Bool-cases, inl, inr,
  ok-injective,
}
use infer_twin.Base.Dict.{contains}
use infer_twin.Replay.EventLoop.Waits.Waiters.{View, view, view_at, waiters, add_wait, add_waits}
use infer_twin.Replay.EventLoop.Waits.{
  ComputeWaitAccounting, waits, charge, compute_wait_loop, record_iteration_compute_wait,
}
use infer_twin.Replay.EventLoop.{write_at}
use infer_twin.Replay.Iteration.{is_progressive}
use infer_twin.Replay.Timeline.{TimelineMode}
use infer_twin.Scheduler.Queue.{item_at}
use infer_twin.Scheduler.State.{RequestState, is_finished, record_compute_wait}
use native.Mathlib.Nat.{add-mul}

item_at-within :
    (a : ℕ) (states : List RequestState)
    → a < length states
    → (s : RequestState) × (item_at a states ≡ ok s)
unfolding item_at
item_at-within a [] h = absurd (omega (arith, h))
item_at-within zero (s ∷ states) h = (s, refl)
item_at-within (suc a) (s ∷ states) h = item_at-within a states (omega (arith, h))

length-write_at :
    (a : ℕ) (s : RequestState) (states : List RequestState)
    → length (write_at a s states) ≡ length states
unfolding write_at
length-write_at a s [] = refl
length-write_at zero s (x ∷ states) = refl
length-write_at (suc a) s (x ∷ states) = ap suc (length-write_at a s states)

-- a sum after one state has changed
sum-write_at :
    (f : RequestState → ℕ) (a : ℕ) (s s' : RequestState) (states : List RequestState)
    → item_at a states ≡ ok s
    → sum_by f (write_at a s' states) + f s ≡ sum_by f states + f s'
unfolding write_at item_at
sum-write_at f a s s' [] h = cc
sum-write_at f zero s s' (x ∷ states) h =
    let e : f x ≡ f s = ok-injective (λ y. f x ≡ f y) h refl in omega (arith, e)
sum-write_at f (suc a) s s' (x ∷ states) h = omega (arith, sum-write_at f a s s' states h)

-- a view of the states that the change does not show in
map-write_at {ℓ} :
    {B : Type ℓ} (g : RequestState → B) (a : ℕ) (s s' : RequestState) (states : List RequestState)
    → item_at a states ≡ ok s
    → g s' ≡ g s
    → map g (write_at a s' states) ≡ map g states
unfolding write_at item_at
map-write_at g a s s' [] h e = refl
map-write_at g zero s s' (x ∷ states) h e =
    let same : g s' ≡ g x = ok-injective (λ y. g s' ≡ g y) (sym h) e in
    ap (λ y. y ∷ map g states) same
map-write_at g (suc a) s s' (x ∷ states) h e = ap (◌∷◌ (g x)) (map-write_at g a s s' states h e)

-- a state without its wait for computation
abbrev pub without_wait : RequestState → RequestState
without_wait s = record s { compute_wait_ms = 0 }

abbrev pub total_wait : List RequestState → ℕ
total_wait = sum_by (λ s. s.compute_wait_ms)

if-true {ℓ} : {A : Type ℓ} (b : Bool) (x y : A) → b ≡ true → (if b then x else y) ≡ x
if-true b x y h = rw h refl

if-false {ℓ} : {A : Type ℓ} (b : Bool) (x y : A) → b ≡ false → (if b then x else y) ≡ y
if-false b x y h = rw h refl

view_at-item :
    (a : ℕ) (s : RequestState) (states : List RequestState)
    → item_at a states ≡ ok s
    → view_at a (map view states) ≡ view s
unfolding item_at
view_at-item a s [] h = cc
view_at-item zero s (x ∷ states) h = ok-injective (λ y. view x ≡ view y) h refl
view_at-item (suc a) s (x ∷ states) h = view_at-item a s states h

write_at-add_wait :
    (duration a : ℕ) (s : RequestState) (states : List RequestState)
    → item_at a states ≡ ok s
    → write_at a (record_compute_wait duration s) states ≡ add_wait duration a states
unfolding item_at write_at record_compute_wait
write_at-add_wait duration a s [] h = cc
write_at-add_wait duration zero s (x ∷ states) h =
    ok-injective
      (λ y.
        record_compute_wait duration y ∷ states
        ≡ record x { compute_wait_ms = x.compute_wait_ms + duration } ∷ states)
      h refl
write_at-add_wait duration (suc a) s (x ∷ states) h =
    ap (◌∷◌ x) (write_at-add_wait duration a s states h)

-- From an accounting and states to what they are after the loop, where requests at these addresses wait.
pub record Attributed (duration : ℕ) (ws : List ℕ) (acc : ComputeWaitAccounting)
    (states : List RequestState) (acc' : ComputeWaitAccounting) (states' : List RequestState)
    : Type 0 where
  pub counted : acc'.waiting_for_compute_count ≡ acc.waiting_for_compute_count + length ws
  pub accounted : acc'.compute_wait_ms ≡ acc.compute_wait_ms + length ws * duration
  pub each : states' ≡ add_waits duration ws states
  pub attributed : total_wait states' ≡ total_wait states + length ws * duration
  pub same_rest : map without_wait states' ≡ map without_wait states

Attributed-none :
    (duration : ℕ) (acc : ComputeWaitAccounting) (states : List RequestState)
    → Attributed duration [] acc states acc states
Attributed-none duration acc states = record {
  counted = omega arith;
  accounted = omega arith;
  each = refl;
  attributed = omega arith;
  same_rest = refl;
}

-- one request waits, and then the others
Attributed-cons :
    (duration a : ℕ) (ws : List ℕ) (s : RequestState) (acc acc' : ComputeWaitAccounting)
    (states states' : List RequestState)
    → item_at a states ≡ ok s
    → Attributed duration ws
        (charge duration acc)
        (write_at a (record_compute_wait duration s) states)
        acc'
        states'
    → Attributed duration (a ∷ ws) acc states acc' states'
unfolding record_compute_wait
Attributed-cons duration a ws s acc acc' states states' at_a h =
    let counted = h.counted in
    let accounted = h.accounted in
    let attributed = h.attributed in
    let paid =
      sum-write_at (λ x. x.compute_wait_ms) a s (record_compute_wait duration s) states at_a in
    let one_more = add-mul 1 (length ws) duration in
    record {
      counted = omega (arith, counted);
      accounted = omega (arith, accounted, one_more);
      each = h.each ∙ ap (add_waits duration ws) (write_at-add_wait duration a s states at_a);
      attributed = omega (arith, attributed, paid, one_more);
      same_rest =
          h.same_rest
          ∙ map-write_at without_wait a s (record_compute_wait duration s) states at_a refl;
    }

waits-waiters :
    (scheduled seen : List String) (a : ℕ) (active : List ℕ) (s : RequestState) (views : View)
    → view_at a views ≡ view s
    → waiters scheduled seen (a ∷ active) views ≡ (
        if waits scheduled seen s
        then a ∷ waiters scheduled (s.request_id ∷ seen) active views
        else waiters scheduled (s.request_id ∷ seen) active views)
waits-waiters scheduled seen a active s views h =
    let name : (view_at a views).0 ≡ s.request_id = ap (λ v. v.0) h in
    let done : (view_at a views).1 ≡ is_finished s.status = ap (λ v. v.1) h in
    elim (Bool-cases (contains s.request_id seen)) [
      | inl repeated ↦ rw (name, repeated) refl
      | inr new ↦ elim (Bool-cases (is_finished s.status)) [
        | inl finished ↦ rw (name, new, done, finished) refl
        | inr active_yet ↦ elim (Bool-cases (contains s.request_id scheduled)) [
          | inl in_batch ↦ rw (name, new, done, active_yet, name, in_batch) refl
          | inr waiting ↦ rw (name, new, done, active_yet, name, waiting) refl
        ]
      ]
    ]

compute_wait_loop-Attributed :
    (scheduled : List String) (duration : ℕ) (active : List ℕ) (seen : List String)
    (states : List RequestState) (acc : ComputeWaitAccounting)
    → All (λ a. a < length states) active
    → (acc' : ComputeWaitAccounting) × (states' : List RequestState) × (compute_wait_loop scheduled
          duration active seen states acc
        ≡ ok (acc', states'))
      × Attributed duration
          (waiters scheduled seen active (map view states))
          acc
          states
          acc'
          states'
unfolding compute_wait_loop
compute_wait_loop-Attributed scheduled duration [] seen states acc h =
    (acc, states, refl, Attributed-none duration acc states)
compute_wait_loop-Attributed scheduled duration (a ∷ active) seen states acc (inside, h) =
    let (s, at_a) = item_at-within a states inside in
    let who =
      waits-waiters scheduled seen a active s (map view states) (view_at-item a s states at_a) in
    elim (Bool-cases (waits scheduled seen s)) [
      | inr passed_over ↦
          let (acc', states', e, att) =
            compute_wait_loop-Attributed scheduled duration active (s.request_id ∷ seen) states acc
              h in
          let same = who ∙ if-false (waits scheduled seen s) _ _ passed_over in
          (
            acc',
            states',
            rw (at_a, passed_over) e,
            subst (λ ws. Attributed duration ws acc states acc' states') (sym same) att,
          )
      | inl waits_now ↦
          let changed = write_at a (record_compute_wait duration s) states in
          let l : length changed ≡ length states =
            length-write_at a (record_compute_wait duration s) states in
          let same_view : map view changed ≡ map view states =
            map-write_at view a s (record_compute_wait duration s) states at_a
              (unfold record_compute_wait in refl) in
          let (acc', states', e, att) =
            compute_wait_loop-Attributed scheduled duration active (s.request_id ∷ seen) changed
              (charge duration acc)
              (All-imp _ (λ b. b < length changed) active (λ b within. rw l within) h) in
          let same = who ∙ if-true (waits scheduled seen s) _ _ waits_now in
          let rest = waiters scheduled (s.request_id ∷ seen) active (map view states) in
          let att1 : Attributed duration rest (charge duration acc) changed acc' states' =
            subst
              (λ vs.
                Attributed duration (waiters scheduled (s.request_id ∷ seen) active vs)
                  (charge duration acc) changed acc' states')
              same_view att in
          (
            acc',
            states',
            rw (at_a, waits_now) e,
            subst (λ ws. Attributed duration ws acc states acc' states') (sym same)
                (Attributed-cons duration a rest s acc acc' states states' at_a att1),
          )
    ]

-- Those who wait for an iteration: in progressive mode the waiters, in other modes none.
abbrev pub waiters_in :
    TimelineMode → (scheduled : List String) → List ℕ → List RequestState → List ℕ
waiters_in mode scheduled active states =
    if is_progressive mode then waiters scheduled [] active (map view states) else []

-- For addresses in the heap, `_record_iteration_compute_wait` raises nothing. In progressive mode the
-- first request of each name waits, if it is neither finished nor in the batch; in other modes none
-- does. What is reported is the number of those requests and this many times the duration; the wait of
-- each of them grows by the duration, once, and nothing else of the states changes.
pub record_iteration_compute_wait-Attributed :
    (active : List ℕ) (scheduled : List String) (duration : ℕ) (mode : TimelineMode)
    (states : List RequestState)
    → All (λ a. a < length states) active
    → (acc : ComputeWaitAccounting) × (states' : List RequestState) × (record_iteration_compute_wait
          active scheduled duration mode states
        ≡ ok (acc, states'))
      × Attributed duration
          (waiters_in mode scheduled active states)
          (record { waiting_for_compute_count = 0; compute_wait_ms = 0 })
          states
          acc
          states'
unfolding record_iteration_compute_wait
record_iteration_compute_wait-Attributed active scheduled duration mode states h =
    let none_yet : ComputeWaitAccounting = record {
      waiting_for_compute_count = 0;
      compute_wait_ms = 0;
    } in
    elim (Bool-cases (is_progressive mode)) [
      | inl progressing ↦
          let (acc, states', e, att) =
            compute_wait_loop-Attributed scheduled duration active [] states none_yet h in
          (acc, states', rw progressing e, rw progressing att)
      | inr other ↦
          (none_yet, states, rw other refl, rw other (Attributed-none duration none_yet states))
    ]
