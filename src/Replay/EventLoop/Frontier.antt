-- ===== src/Replay/EventLoop/Frontier.antt =====
-- src/infertwin/replay/event_loop.py: before an iteration is scheduled, the requests that it may reach
-- are looked up in the cache, and those with nothing to compute or load are finished.
pub mod Laws
use infer_twin.Base.Dict.{insert}
use infer_twin.Base.Int.{pos}
use infer_twin.Base.{
  ℕ, zero, suc, ◌+◌, ◌-◌, Bool, true, false, ◌||◌, not, List, [], ◌∷◌, ◌++◌, Option, none, some,
  Result, ok, raise, out_of_fuel, ◌>>=◌, if◌then◌else◌, leb, ltb, ◌==◌, ◌&&◌,
}
use infer_twin.Replay.EventLoop.{Engine, Loop, entry, state_of, update}
use infer_twin.Replay.Metrics.Build.{build_request_metrics}
use infer_twin.Replay.Metrics.Lookup.{LookupMetrics, record_lookup}
use infer_twin.Request.Simulation.{SimulationRequest}
use infer_twin.Scheduler.Config.{SchedulerConfig, planned_prefill_tokens}
use infer_twin.Scheduler.Queue.{len, get_item, pop}
use infer_twin.Scheduler.State.{
  RequestState, is_running, is_finished, remaining_prefill_tokens, has_pending_kv_load, finish,
}

abbrev pub or_now : ℕ → Option ℕ → Option ℕ
or_now now none = some now
or_now now (some t) = some t

-- What the loop over the running requests leaves for the waiting ones: nothing, or the budget and the
-- number of slices planned.
pub data Room : Type 0 where
  full : Room
  room : (token_budget planned_slices : ℕ) → Room

-- What one turn of the loop over the waiting requests does: return, or go on.
pub data Turn {ℓ} (C : Type ℓ) : Type ℓ where
  ended : Loop C → Turn C
  next : (index token_budget planned_slices : ℕ) → Loop C → Turn C

module _ {ℓ} {C : Type ℓ} (e : Engine C) where
  -- `_ensure_lookup`
  unfoldable pub ensure_lookup : SimulationRequest → ℕ → Loop C → Result (Loop C)
  ensure_lookup request a l = do
    s ← state_of a l
    if s.cache_lookup_done then ok l else do
      (lookup, c) ←
          e.cache_operations.lookup_prefix s.prompt_blocks l.now_ms s.request_id s.instance_uuid
            l.cache
      (metrics, s') ← record_lookup lookup request s
      ok (
          update a s'
            (record l { cache = c; lookup_by_id = insert s.request_id metrics l.lookup_by_id }))

  -- `_prepare_running`
  unfoldable pub prepare_running : List ℕ → Loop C → Result (Loop C)
  unfolding ensure_lookup
  prepare_running [] l = ok l
  prepare_running (a ∷ rest) l = do
    s ← state_of a l
    request ← entry s.request_id l.requests_by_id
    l' ← ensure_lookup request a l
    prepare_running rest l'

  -- `_finish_zero_miss_request`
  unfoldable pub finish_zero_miss_request :
      ℕ → SimulationRequest → LookupMetrics → Loop C → Result (Loop C)
  finish_zero_miss_request a request lookup l = do
    s ← state_of a l
    if is_finished s.status then ok l else do
      let s' =
          finish l.now_ms
            (record s { first_scheduled_time_ms = or_now l.now_ms s.first_scheduled_time_ms })
      metrics ← build_request_metrics e.divide e.epsilon request s' lookup
      ok (update a s' (record l { request_metrics = l.request_metrics ++ metrics ∷ [] }))

  -- with the request and the lookup of the state's name
  unfoldable pub finish_by_name : ℕ → Loop C → Result (Loop C)
  unfolding finish_zero_miss_request
  finish_by_name a l = do
    s ← state_of a l
    request ← entry s.request_id l.requests_by_id
    lookup ← entry s.request_id l.lookup_by_id
    finish_zero_miss_request a request lookup l

  -- nothing to compute and nothing to load
  unfoldable pub has_zero_miss : RequestState → Result Bool
  has_zero_miss s = do
    remaining ← remaining_prefill_tokens s
    if not (remaining == 0) then ok false else do load ← has_pending_kv_load s; ok (not load)

  -- `_finish_zero_miss_requests`
  unfoldable pub finish_zero_miss_requests : List ℕ → Loop C → Result (Loop C)
  unfolding has_zero_miss finish_by_name
  finish_zero_miss_requests [] l = ok l
  finish_zero_miss_requests (a ∷ rest) l = do
    s ← state_of a l
    zero_miss ← has_zero_miss s
    l' ← if zero_miss then finish_by_name a l else ok l
    finish_zero_miss_requests rest l'

  -- what one running request takes of the budgets
  unfoldable pub plan_running : RequestState → (token_budget planned_slices : ℕ) → Result Room
  plan_running s token_budget planned_slices =
      if not (is_running s.status) then ok (room token_budget planned_slices) else do
        planned ← planned_prefill_tokens e.config s token_budget
        if not (leb planned 0)
            then ok (
                if leb (token_budget - planned) 0 || leb e.config.max_num_seqs (planned_slices + 1)
                then full
                else room (token_budget - planned) (planned_slices + 1))
            else do
              remaining ← remaining_prefill_tokens s
              load ← if remaining == 0 then has_pending_kv_load s else ok false
              ok (
                  if not load
                  then room token_budget planned_slices
                  else if leb e.config.max_num_seqs (planned_slices + 1)
                  then full
                  else room token_budget (planned_slices + 1))

  -- the loop of `_prepare_waiting_frontier` over the running requests
  unfoldable pub plan_all_running : List ℕ → Room → Loop C → Result Room
  unfolding plan_running
  plan_all_running [] r l = ok r
  plan_all_running (a ∷ rest) full l = ok full
  plan_all_running (a ∷ rest) (room token_budget planned_slices) l = do
    s ← state_of a l
    r ← plan_running s token_budget planned_slices
    plan_all_running rest r l

  -- a waiting request with nothing to compute: its load takes a slice, or it is finished at once
  unfoldable pub plan_without_compute :
      (index a token_budget planned_slices : ℕ) → RequestState → Loop C → Result (Turn C)
  unfolding finish_by_name
  plan_without_compute index a token_budget planned_slices s l = do
    load ← has_pending_kv_load s
    if load then ok (next (index + 1) token_budget (planned_slices + 1) l) else do
      popped ← pop (pos index) l.waiting
      l' ← finish_by_name a (record l { waiting = popped.1 })
      ok (next index token_budget planned_slices l')

  -- a waiting request with tokens to compute
  unfoldable pub plan_compute :
      (index token_budget planned_slices : ℕ) → RequestState → Loop C → Result (Turn C)
  plan_compute index token_budget planned_slices s l =
      if leb token_budget 0 then ok (ended l) else do
        planned ← planned_prefill_tokens e.config s token_budget
        ok (
            if leb planned 0
            then ended l
            else next (index + 1) (token_budget - planned) (planned_slices + 1) l)

  -- one turn of the loop over the waiting requests
  unfoldable pub plan_turn : (index token_budget planned_slices : ℕ) → Loop C → Result (Turn C)
  unfolding ensure_lookup plan_without_compute plan_compute
  plan_turn index token_budget planned_slices l = do
    a ← get_item (pos index) l.waiting
    s0 ← state_of a l
    request ← entry s0.request_id l.requests_by_id
    l1 ← ensure_lookup request a l
    s ← state_of a l1
    remaining ← remaining_prefill_tokens s
    if remaining == 0
        then plan_without_compute index a token_budget planned_slices s l1
        else plan_compute index token_budget planned_slices s l1

  -- The loop of `_prepare_waiting_frontier` over the waiting ones, from an index on. A turn ends it, steps
  -- over a request, or takes one out of the queue, so the length of the queue is enough fuel.
  unfoldable pub plan_waiting :
      (fuel index token_budget planned_slices : ℕ) → Loop C → Result (Loop C)
  unfolding plan_turn
  plan_waiting zero index token_budget planned_slices l =
      if ltb index (len l.waiting) && ltb planned_slices e.config.max_num_seqs
      then raise out_of_fuel
      else ok l
  plan_waiting (suc fuel) index token_budget planned_slices l =
      if not (ltb index (len l.waiting) && ltb planned_slices e.config.max_num_seqs)
      then ok l
      else do
        turn ← plan_turn index token_budget planned_slices l
        elim turn [
          | ended l' ↦ ok l'
          | next index' token_budget' planned_slices' l' ↦
              plan_waiting fuel index' token_budget' planned_slices' l'
        ]

  -- `_prepare_waiting_frontier`
  unfoldable pub prepare_waiting_frontier : List ℕ → Loop C → Result (Loop C)
  unfolding plan_all_running plan_waiting
  prepare_waiting_frontier running l = do
    r ← plan_all_running running (room e.config.max_num_batched_tokens 0) l
    elim r [
      | full ↦ ok l
      | room token_budget planned_slices ↦
          plan_waiting (len l.waiting) 0 token_budget planned_slices l
    ]

  -- `[state for state in running if state.status != FINISHED]`
  unfoldable pub unfinished : List ℕ → Loop C → Result (List ℕ)
  unfinished [] l = ok []
  unfinished (a ∷ rest) l = do
    s ← state_of a l
    active ← unfinished rest l
    ok (if is_finished s.status then active else a ∷ active)

  -- `_prepare_scheduler_frontier`
  unfoldable pub prepare_scheduler_frontier : Loop C → Result (Loop C)
  unfolding prepare_running finish_zero_miss_requests prepare_waiting_frontier unfinished
  prepare_scheduler_frontier l = do
    l1 ← prepare_running l.running l
    l2 ← finish_zero_miss_requests l.running l1
    active ← unfinished l.running l2
    l3 ← prepare_waiting_frontier active l2
    ok (record l3 { running = active })
