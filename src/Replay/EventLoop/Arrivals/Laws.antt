-- ===== src/Replay/EventLoop/Arrivals/Laws.antt =====
-- What arrives at the queue of an instance, and when.
use infer_twin.Base.Dict.{insert}
use infer_twin.Base.{
  ℕ, ◌+◌, ◌-◌, ◌≤◌, ◌<◌, false, List, [], ◌∷◌, ◌++◌, append-nil, append_assoc, ok, ◌≡◌, refl, sym,
  ap, ◌∙◌, arith, leb, ltb, All, length, Bool-cases, inl, inr, if◌then◌else◌,
}
use infer_twin.Replay.EventLoop.Arrivals.{
  state_from_request, record_initial_compute_wait, arrive, move_pending, move_arrivals,
}
use infer_twin.Replay.EventLoop.{Loop}
use infer_twin.Replay.Iteration.{is_progressive}
use infer_twin.Replay.Timeline.{TimelineMode}
use infer_twin.Request.Simulation.{SimulationRequest}
use infer_twin.Scheduler.Queue.{append}
use infer_twin.Scheduler.State.{RequestState, record_compute_wait}

-- The state of a request that the loop sees at `now`: in progressive mode it has waited since it arrived.
abbrev pub arrived_state : TimelineMode → (now index : ℕ) → SimulationRequest → RequestState
arrived_state mode now index request =
    let s = state_from_request request index mode in
    record s { compute_wait_ms = if is_progressive mode then now - request.start_time_ms else 0 }

-- the states of requests that arrive one after the other
abbrev pub arrived_states :
    TimelineMode → (now index : ℕ) → List SimulationRequest → List RequestState
arrived_states mode now index [] = []
arrived_states mode now index (request ∷ requests) =
    arrived_state mode now index request ∷ arrived_states mode now (index + 1) requests

abbrev pub addresses : (index : ℕ) → List SimulationRequest → List ℕ
addresses index [] = []
addresses index (request ∷ requests) = index ∷ addresses (index + 1) requests

-- the first of the requests is not due
abbrev pub Later : ℕ → List SimulationRequest → Type 0
Later now [] = Unit
Later now (request ∷ requests) = now < request.start_time_ms

-- The loop's variables before and after the requests that are due have arrived.
pub record Moved {ℓ} {C : Type ℓ} (mode : TimelineMode) (l l' : Loop C) : Type ℓ where
  pub arrived : List SimulationRequest
  pub split : l.pending ≡ arrived ++ l'.pending
  pub due : All (λ request. request.start_time_ms ≤ l.now_ms) arrived
  pub later : Later l.now_ms l'.pending
  pub counted : l'.pending_index ≡ l.pending_index + length arrived
  pub queued : l'.waiting.items ≡ l.waiting.items ++ addresses l.pending_index arrived
  pub same_head : l'.waiting.head ≡ l.waiting.head
  pub stored : l'.states ≡ l.states ++ arrived_states mode l.now_ms l.pending_index arrived
  pub same_running : l'.running ≡ l.running
  pub same_time : l'.now_ms ≡ l.now_ms

initial_wait-ok :
    (mode : TimelineMode) (now index : ℕ) (request : SimulationRequest)
    → request.start_time_ms ≤ now
    → record_initial_compute_wait now (state_from_request request index mode)
      ≡ ok (arrived_state mode now index request)
unfolding record_initial_compute_wait record_compute_wait state_from_request
initial_wait-ok mode now index request due = elim (Bool-cases (is_progressive mode)) [
  | inl yes_progressive ↦
      let on_time : ltb now request.start_time_ms ≡ false = ground arith in
      let e : 0 + (now - request.start_time_ms) ≡ now - request.start_time_ms = omega arith in
      rw (yes_progressive, on_time, e) refl
  | inr not_progressive ↦ rw not_progressive refl
]

-- the loop's variables after one arrival
abbrev after_arrival {ℓ} : {C : Type ℓ} → TimelineMode → SimulationRequest → Loop C → Loop C
after_arrival mode request l = record l {
  states = l.states ++ arrived_state mode l.now_ms l.pending_index request ∷ [];
  waiting = append l.pending_index l.waiting;
  states_by_id = insert request.request_id l.pending_index l.states_by_id;
  requests_by_id = insert request.request_id request l.requests_by_id;
  pending_index = l.pending_index + 1;
}

arrive-ok {ℓ} :
    {C : Type ℓ} (mode : TimelineMode) (request : SimulationRequest) (l : Loop C)
    → request.start_time_ms ≤ l.now_ms
    → arrive mode request l ≡ ok (after_arrival mode request l)
unfolding arrive state_from_request
arrive-ok mode request l due = rw (initial_wait-ok mode l.now_ms l.pending_index request due) refl

-- one arrival before the others
Moved-cons {ℓ} :
    {C : Type ℓ} (mode : TimelineMode) (request : SimulationRequest)
    (requests : List SimulationRequest) (l l' : Loop C)
    → request.start_time_ms ≤ l.now_ms
    → l.pending ≡ request ∷ requests
    → Moved mode (record (after_arrival mode request l) { pending = requests }) l'
    → Moved mode l l'
unfolding append
Moved-cons mode request requests l l' due e m =
    let split = m.split in
    let counted = m.counted in
    record {
      arrived = request ∷ m.arrived;
      split = e ∙ ap (◌∷◌ request) split;
      due = (due, m.due);
      later = m.later;
      counted = omega (arith, counted);
      queued =
          m.queued
          ∙ append_assoc l.waiting.items (l.pending_index ∷ [])
              (addresses (l.pending_index + 1) m.arrived);
      same_head = m.same_head;
      stored =
          m.stored
          ∙ append_assoc l.states (arrived_state mode l.now_ms l.pending_index request ∷ [])
              (arrived_states mode l.now_ms (l.pending_index + 1) m.arrived);
      same_running = m.same_running;
      same_time = m.same_time;
    }

Moved-none {ℓ} :
    {C : Type ℓ} (mode : TimelineMode) (l : Loop C) → Later l.now_ms l.pending → Moved mode l l
Moved-none mode l later = record {
  arrived = [];
  split = refl;
  due = tt;
  later = later;
  counted = omega arith;
  queued = sym (append-nil l.waiting.items);
  same_head = refl;
  stored = sym (append-nil l.states);
  same_running = refl;
  same_time = refl;
}

move_pending-Moved {ℓ} :
    {C : Type ℓ} (mode : TimelineMode) (requests : List SimulationRequest) (l : Loop C)
    → (l' : Loop C) × (move_pending mode requests l ≡ ok l')
      × Moved mode (record l { pending = requests }) l'
unfolding move_pending
move_pending-Moved mode [] l =
    (record l { pending = [] }, refl, Moved-none mode (record l { pending = [] }) tt)
move_pending-Moved mode (request ∷ requests) l =
    elim (Bool-cases (leb request.start_time_ms l.now_ms)) [
      | inl due ↦
          let in_time : request.start_time_ms ≤ l.now_ms = ground arith in
          let (l', e, m) = move_pending-Moved mode requests (after_arrival mode request l) in
          (
            l',
            rw (due, arrive-ok mode request l in_time) e,
            Moved-cons mode request requests (record l { pending = request ∷ requests }) l' in_time
                refl m,
          )
      | inr not_due ↦
          let l' = record l { pending = request ∷ requests } in
          (l', rw not_due refl, Moved-none mode l' (ground arith))
    ]

-- `_move_arrivals` raises nothing. It takes from the pending requests the longest first part that is due,
-- puts new states for these at the end of the heap and their addresses at the end of the queue, in
-- order, and leaves the running requests alone; a new state has computed nothing, and in progressive
-- mode it has waited since its arrival.
pub move_arrivals-Moved {ℓ} :
    {C : Type ℓ} (mode : TimelineMode) (l : Loop C)
    → (l' : Loop C) × (move_arrivals mode l ≡ ok l') × Moved mode l l'
unfolding move_arrivals
move_arrivals-Moved mode l = move_pending-Moved mode l.pending l
