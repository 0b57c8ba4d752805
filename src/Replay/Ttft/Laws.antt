-- ===== src/Replay/Ttft/Laws.antt =====
-- A request's time to the first token, which in progressive mode is made up of its parts.
use infer_twin.Base.{
  ℕ, ◌+◌, ◌-◌, ◌≤◌, ◌<◌, String, Bool-cases, inl, inr, ◌⊎◌, Result, ok, raise, value_error, ◌≡◌,
  refl, arith, ltb,
}
use infer_twin.Replay.Timeline.{TimelineMode, legacy, progressive, other_mode}
use infer_twin.Replay.Ttft.{
  RequestTtftComposition, base_ms, compose_legacy, compose_progressive, closed_residual,
  compose_mode, compose,
}
use infer_twin.Request.Simulation.{SimulationRequest}
use infer_twin.Scheduler.State.{RequestState}

-- What a composition says of the time between a request's arrival and its end. In legacy mode it is the
-- time to the first token; in progressive mode the parts add up to that time, up to the tolerance.
pub data Composed (epsilon : ℕ) (request : SimulationRequest) (s : RequestState)
    (finish_time first : ℕ) : Result RequestTtftComposition → Type 0 where
  early :
      (finish_time < request.start_time_ms) ⊎ (first < request.start_time_ms)
      → Composed epsilon request s finish_time first (raise value_error)
  unknown_mode :
      (name : String)
      → s.timeline_mode ≡ other_mode name
      → Composed epsilon request s finish_time first (raise value_error)
  exceeded :
      s.timeline_mode ≡ progressive
      → finish_time - request.start_time_ms + epsilon < base_ms s
      → Composed epsilon request s finish_time first (raise value_error)
  whole :
      {c : RequestTtftComposition}
      → s.timeline_mode ≡ legacy
      → request.start_time_ms + c.ttft_ms ≡ finish_time
      → request.start_time_ms + c.scheduler_wait_ms ≡ first
      → c.uncached_prefill_compute_ms ≡ s.prefill_compute_ms
      → Composed epsilon request s finish_time first (ok c)
  parts :
      {c : RequestTtftComposition}
      → s.timeline_mode ≡ progressive
      → c.ttft_ms
        ≡ c.compute_wait_ms + c.kv_load_wait_ms + c.uncached_prefill_compute_ms
          + c.unattributed_ttft_ms
      → c.compute_wait_ms ≡ s.compute_wait_ms
      → c.kv_load_wait_ms ≡ s.kv_load_wait_ms
      → c.uncached_prefill_compute_ms ≡ s.prefill_compute_ms
      → c.scheduler_wait_ms ≡ s.compute_wait_ms + s.kv_load_wait_ms
      → s.unattributed_ttft_ms ≤ c.unattributed_ttft_ms
      → request.start_time_ms + c.ttft_ms ≤ finish_time + epsilon
      → finish_time ≤ request.start_time_ms + c.ttft_ms + epsilon
      → Composed epsilon request s finish_time first (ok c)

residual-bounds :
    (epsilon observed base : ℕ)
    → base ≤ observed + epsilon
    → (base + closed_residual epsilon observed base ≤ observed + epsilon)
      × (observed ≤ base + closed_residual epsilon observed base + epsilon)
residual-bounds epsilon observed base h = (ground arith, ground arith)

module _ (epsilon : ℕ) (request : SimulationRequest) (s : RequestState) (finish_time first : ℕ)
    (in_time : request.start_time_ms ≤ finish_time)
    (scheduled : request.start_time_ms ≤ first) where
  compose_progressive-Composed :
      s.timeline_mode ≡ progressive
      → Composed epsilon request s finish_time first
          (compose_progressive epsilon request s finish_time)
  unfolding compose_progressive
  compose_progressive-Composed mode =
      let observed = finish_time - request.start_time_ms in
      elim (Bool-cases (ltb (observed + epsilon) (base_ms s))) [
        | inl over ↦ rw over (exceeded mode (ground arith))
        | inr within ↦
            let fits : base_ms s ≤ observed + epsilon = ground arith in
            let (above, below) = residual-bounds epsilon observed (base_ms s) fits in
            rw within (
              parts mode refl refl refl refl refl (omega arith) (omega (arith, above))
                (omega (arith, below)))
      ]

  compose_mode-Composed :
      (mode : TimelineMode)
      → s.timeline_mode ≡ mode
      → Composed epsilon request s finish_time first
          (compose_mode mode epsilon request s finish_time first)
  unfolding compose_mode compose_legacy
  compose_mode-Composed legacy e = whole e (omega arith) (omega arith) refl
  compose_mode-Composed progressive e = compose_progressive-Composed e
  compose_mode-Composed (other_mode name) e = unknown_mode name e

-- `compose` raises ValueError for a request that ends or is first scheduled before it arrives, for an
-- unknown mode, and in progressive mode if the recorded parts exceed the observed time by more than
-- the tolerance. Otherwise legacy mode gives the observed time, the wait before the first iteration and
-- the recorded computation, which need not add up. In progressive mode the parts are the recorded
-- waits and computation and at least the recorded time that is not attributed; the time is their
-- sum, and it is the observed time up to the tolerance.
pub compose-Composed :
    (epsilon : ℕ) (request : SimulationRequest) (s : RequestState) (finish_time first : ℕ)
    → Composed epsilon request s finish_time first (compose epsilon request s finish_time first)
unfolding compose
compose-Composed epsilon request s finish_time first =
    elim (Bool-cases (ltb finish_time request.start_time_ms)) [
      | inl before ↦ rw before (early (inl (ground arith)))
      | inr after ↦ elim (Bool-cases (ltb first request.start_time_ms)) [
        | inl before ↦ rw (after, before) (early (inr (ground arith)))
        | inr scheduled ↦
            rw (after, scheduled)
              (compose_mode-Composed epsilon request s finish_time first (ground arith)
                (ground arith) s.timeline_mode refl)
      ]
    ]
