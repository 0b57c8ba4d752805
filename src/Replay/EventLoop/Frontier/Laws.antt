-- ===== src/Replay/EventLoop/Frontier/Laws.antt =====
-- The loop over the waiting requests ends before its fuel does.
use infer_twin.Base.Int.{pos}
use infer_twin.Base.{
  ℕ, zero, suc, ◌-◌, ◌≤◌, ◌<◌, Bool, true, false, ◌&&◌, Exception, Result, ok, raise, ok-injective,
  >>=-eq-ok, ◌>>=◌, ◌≡◌, refl, sym, ap, subst, arith, ltb, leb, ◌==◌, Bool-cases, inl, inr,
}
use infer_twin.Replay.EventLoop.Frontier.{
  Turn, ended, next, ensure_lookup, finish_zero_miss_request, finish_by_name, plan_without_compute,
  plan_compute, plan_turn, plan_waiting,
}
use infer_twin.Replay.EventLoop.{Engine, Loop, update, state_of, entry}
use infer_twin.Replay.Metrics.Build.{build_request_metrics}
use infer_twin.Replay.Metrics.Lookup.{record_lookup}
use infer_twin.Request.Simulation.{SimulationRequest}
use infer_twin.Scheduler.Queue.Laws.{IsCompact, pop-shorter}
use infer_twin.Scheduler.Queue.{len, pop, get_item}
use infer_twin.Scheduler.Config.{planned_prefill_tokens}
use infer_twin.Scheduler.State.{
  RequestState, is_finished, has_pending_kv_load, remaining_prefill_tokens,
}

module _ {ℓ} {C : Type ℓ} (e : Engine C) where
  abbrev SameQueue : Loop C → Loop C → Type 0
  SameQueue l l' = l'.waiting ≡ l.waiting

  ensure_lookup-SameQueue :
      (request : SimulationRequest) (a : ℕ) (l : Loop C) {l' : Loop C}
      → ensure_lookup e request a l ≡ ok l'
      → SameQueue l l'
  unfolding ensure_lookup update
  ensure_lookup-SameQueue request a l h =
      let (s, at_a, h1) = >>=-eq-ok (state_of a l) _ h in
      elim (Bool-cases s.cache_lookup_done) [
        | inl done ↦ ok-injective (SameQueue l) (rw done at h1) refl
        | inr new ↦
            let (found, looked, h2) =
              >>=-eq-ok
                (e.cache_operations.lookup_prefix s.prompt_blocks l.now_ms s.request_id
                  s.instance_uuid l.cache)
                _ (rw new at h1) in
            let (recorded, accepted, h3) = >>=-eq-ok (record_lookup found.0 request s) _ h2 in
            ok-injective (SameQueue l) h3 refl
      ]

  finish_by_name-SameQueue :
      (a : ℕ) (l : Loop C) {l' : Loop C} → finish_by_name e a l ≡ ok l' → SameQueue l l'
  unfolding finish_by_name finish_zero_miss_request update
  finish_by_name-SameQueue a l h =
      let (s, at_a, h1) = >>=-eq-ok (state_of a l) _ h in
      let (request, named, h2) = >>=-eq-ok (entry s.request_id l.requests_by_id) _ h1 in
      let (lookup, looked, h3) = >>=-eq-ok (entry s.request_id l.lookup_by_id) _ h2 in
      let (s1, at_a1, h4) = >>=-eq-ok (state_of a l) _ h3 in
      elim (Bool-cases (is_finished s1.status)) [
        | inl done ↦ ok-injective (SameQueue l) (rw done at h4) refl
        | inr active ↦
            let (metrics, built, h5) =
              >>=-eq-ok (build_request_metrics e.divide e.epsilon request _ lookup) _
                (rw active at h4) in
            ok-injective (SameQueue l) h5 refl
      ]

  -- The requests that the loop has not passed.
  abbrev ahead : (index : ℕ) → Loop C → ℕ
  ahead index l = len l.waiting - index

  -- A turn ends the loop, or leaves fewer requests ahead.
  abbrev Shorter : (index : ℕ) → Loop C → Turn C → Type 0
  Shorter index l (ended l') = Unit
  Shorter index l (next index' token_budget planned_slices l') =
      (suc (ahead index' l') ≤ ahead index l) × IsCompact l'.waiting

  plan_without_compute-Shorter :
      (index a token_budget planned_slices : ℕ) (s : RequestState) (l : Loop C) {t : Turn C}
      → IsCompact l.waiting
      → index < len l.waiting
      → plan_without_compute e index a token_budget planned_slices s l ≡ ok t
      → Shorter index l t
  unfolding plan_without_compute
  plan_without_compute-Shorter index a token_budget planned_slices s l c inside h =
      let (load, asked, h1) = >>=-eq-ok (has_pending_kv_load s) _ h in
      elim (Bool-cases load) [
        | inl loads ↦ ok-injective (Shorter index l) (rw loads at h1) (omega arith, c)
        | inr nothing ↦
            let (popped, taken, h2) = >>=-eq-ok (pop (pos index) l.waiting) _ (rw nothing at h1) in
            let (less, good) = pop-shorter index l.waiting c popped taken in
            let (l', finished, h3) =
              >>=-eq-ok (finish_by_name e a (record l { waiting = popped.1 })) _ h2 in
            let same = finish_by_name-SameQueue a (record l { waiting = popped.1 }) finished in
            let e1 : len l'.waiting ≡ len popped.1 = ap len same in
            ok-injective (Shorter index l) h3
              (omega (arith, e1, less), subst IsCompact (sym same) good)
      ]

  plan_compute-Shorter :
      (index token_budget planned_slices : ℕ) (s : RequestState) (l : Loop C) {t : Turn C}
      → IsCompact l.waiting
      → index < len l.waiting
      → plan_compute e index token_budget planned_slices s l ≡ ok t
      → Shorter index l t
  unfolding plan_compute
  plan_compute-Shorter index token_budget planned_slices s l c inside h =
      elim (Bool-cases (leb token_budget 0)) [
        | inl no_budget ↦ ok-injective (Shorter index l) (rw no_budget at h) tt
        | inr budget ↦
            let (planned, some, h1) =
              >>=-eq-ok (planned_prefill_tokens e.config s token_budget) _ (rw budget at h) in
            elim (Bool-cases (leb planned 0)) [
              | inl none_planned ↦ ok-injective (Shorter index l) (rw none_planned at h1) tt
              | inr some_planned ↦
                  ok-injective (Shorter index l) (rw some_planned at h1) (omega arith, c)
            ]
      ]

  of_same :
      (index : ℕ) (l l' : Loop C) (t : Turn C)
      → SameQueue l l'
      → Shorter index l' t
      → Shorter index l t
  of_same index l l' (ended l'') same h = tt
  of_same index l l' (next index' token_budget planned_slices l'') same (less, good) =
      let e1 : len l'.waiting ≡ len l.waiting = ap len same in (omega (arith, e1, less), good)

  plan_turn-Shorter :
      (index token_budget planned_slices : ℕ) (l : Loop C) (t : Turn C)
      → IsCompact l.waiting
      → index < len l.waiting
      → plan_turn e index token_budget planned_slices l ≡ ok t
      → Shorter index l t
  unfolding plan_turn
  plan_turn-Shorter index token_budget planned_slices l t c inside h =
      let (a, queued, h1) = >>=-eq-ok (get_item (pos index) l.waiting) _ h in
      let (s0, at_a, h2) = >>=-eq-ok (state_of a l) _ h1 in
      let (request, named, h3) = >>=-eq-ok (entry s0.request_id l.requests_by_id) _ h2 in
      let (l1, looked, h4) = >>=-eq-ok (ensure_lookup e request a l) _ h3 in
      let same = ensure_lookup-SameQueue request a l looked in
      let c1 : IsCompact l1.waiting = subst IsCompact (sym same) c in
      let e1 : len l1.waiting ≡ len l.waiting = ap len same in
      let inside1 : index < len l1.waiting = omega (arith, inside, e1) in
      let (s, at_a1, h5) = >>=-eq-ok (state_of a l1) _ h4 in
      let (remaining, left, h6) = >>=-eq-ok (remaining_prefill_tokens s) _ h5 in
      of_same index l l1 t same (elim (Bool-cases (remaining == 0)) [
        | inl none_left ↦
            plan_without_compute-Shorter index a token_budget planned_slices s l1 c1 inside1
              (rw none_left at h6)
        | inr some_left ↦
            plan_compute-Shorter index token_budget planned_slices s l1 c1 inside1
              (rw some_left at h6)
      ])

  -- The condition of the loop.
  abbrev pub goes_on : (index planned_slices : ℕ) → Loop C → Bool
  goes_on index planned_slices l =
      ltb index (len l.waiting) && ltb planned_slices e.config.max_num_seqs

  -- The source's loop, turn by turn, with no fuel.
  pub data FrontierRun
      : (index token_budget planned_slices : ℕ) → Loop C → Result (Loop C) → Type ℓ where
    condition_fails :
        {index token_budget planned_slices : ℕ} {l : Loop C}
        → goes_on index planned_slices l ≡ false
        → FrontierRun index token_budget planned_slices l (ok l)
    turn_raises :
        {index token_budget planned_slices : ℕ} {l : Loop C} {x : Exception}
        → goes_on index planned_slices l ≡ true
        → plan_turn e index token_budget planned_slices l ≡ raise x
        → FrontierRun index token_budget planned_slices l (raise x)
    turn_returns :
        {index token_budget planned_slices : ℕ} {l l' : Loop C}
        → goes_on index planned_slices l ≡ true
        → plan_turn e index token_budget planned_slices l ≡ ok (ended l')
        → FrontierRun index token_budget planned_slices l (ok l')
    turn_continues :
        {index token_budget planned_slices index' token_budget' planned_slices' : ℕ} {l l' : Loop C}
        {r : Result (Loop C)}
        → goes_on index planned_slices l ≡ true
        → plan_turn e index token_budget planned_slices l
          ≡ ok (next index' token_budget' planned_slices' l')
        → FrontierRun index' token_budget' planned_slices' l' r
        → FrontierRun index token_budget planned_slices l r

  -- a turn, with what is known of the turns after it
  turn_lem :
      (fuel index token_budget planned_slices : ℕ) (l : Loop C)
      → IsCompact l.waiting
      → goes_on index planned_slices l ≡ true
      → ((i t p : ℕ) (l' : Loop C)
          → suc (ahead i l') ≤ ahead index l
          → IsCompact l'.waiting
          → FrontierRun i t p l' (plan_waiting e fuel i t p l'))
      → (turn : Result (Turn C)) → plan_turn e index token_budget planned_slices l ≡ turn
      → FrontierRun index token_budget planned_slices l (
          turn >>= λ t. elim t [
            | ended l' ↦ ok l'
            | next index' token_budget' planned_slices' l' ↦
                plan_waiting e fuel index' token_budget' planned_slices' l'
          ])
  turn_lem fuel index token_budget planned_slices l c more later (raise x) same =
      turn_raises more same
  turn_lem fuel index token_budget planned_slices l c more later (ok (ended l')) same =
      turn_returns more same
  turn_lem fuel index token_budget planned_slices l c more later (ok (next i t p l')) same =
      let inside : index < len l.waiting = ground arith in
      let (less, good) =
        plan_turn-Shorter index token_budget planned_slices l (next i t p l') c inside same in
      turn_continues more same (later i t p l' less good)

  -- The loop that prepares the waiting requests ends: on a compact queue, with as much fuel as there are
  -- requests ahead of the index, its result is that of the source's loop, which has no fuel.
  pub plan_waiting-FrontierRun :
      (fuel index token_budget planned_slices : ℕ) (l : Loop C)
      → IsCompact l.waiting
      → len l.waiting - index ≤ fuel
      → FrontierRun index token_budget planned_slices l
          (plan_waiting e fuel index token_budget planned_slices l)
  unfolding plan_waiting
  plan_waiting-FrontierRun zero index token_budget planned_slices l c enough =
      let over : goes_on index planned_slices l ≡ false = ground arith in
      rw over (condition_fails over)
  plan_waiting-FrontierRun (suc fuel) index token_budget planned_slices l c enough =
      elim (Bool-cases (goes_on index planned_slices l)) [
        | inr over ↦ rw over (condition_fails over)
        | inl more ↦ rw more (
            turn_lem fuel index token_budget planned_slices l c more
              (λ i t p l' less good.
                plan_waiting-FrontierRun fuel i t p l' good (omega (arith, less, enough)))
              (plan_turn e index token_budget planned_slices l) refl)
      ]
