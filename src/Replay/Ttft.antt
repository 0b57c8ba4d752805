-- ===== src/Replay/Ttft.antt =====
-- src/infertwin/replay/ttft.py: the time to the first token of a finished request, and its parts. Times
-- are natural numbers, and so is the tolerance; the checks of `__post_init__` always pass.
pub mod Laws
use infer_twin.Base.{
  ℕ, ◌+◌, ◌-◌, Result, ok, raise, value_error, reject_if, ◌>>=◌, ◌>>◌, if◌then◌else◌, ltb, leb,
}
use infer_twin.Replay.Timeline.{
  TimelineMode, legacy, progressive, other_mode, TtftGranularity, iteration, chunk,
}
use infer_twin.Request.Simulation.{SimulationRequest}
use infer_twin.Scheduler.State.{RequestState}

pub record RequestTtftComposition : Type 0 where
  pub timeline_mode : TimelineMode
  pub ttft_granularity : TtftGranularity
  pub observed_ttft_ms : ℕ
  pub ttft_ms : ℕ
  pub scheduler_wait_ms : ℕ
  pub compute_wait_ms : ℕ
  pub kv_load_wait_ms : ℕ
  pub uncached_prefill_compute_ms : ℕ
  pub unattributed_ttft_ms : ℕ
  pub chunk_count : ℕ
  pub load_event_count : ℕ

unfoldable pub compose_legacy :
    SimulationRequest → RequestState → (finish_time first_scheduled : ℕ) → RequestTtftComposition
compose_legacy request s finish_time first_scheduled =
    let observed = finish_time - request.start_time_ms in
    record {
      timeline_mode = legacy;
      ttft_granularity = iteration;
      observed_ttft_ms = observed;
      ttft_ms = observed;
      scheduler_wait_ms = first_scheduled - request.start_time_ms;
      compute_wait_ms = 0;
      kv_load_wait_ms = 0;
      uncached_prefill_compute_ms = s.prefill_compute_ms;
      unattributed_ttft_ms = 0;
      chunk_count = 0;
      load_event_count = 0;
    }

-- the waits, the computation and what was not attributed so far
abbrev pub base_ms : RequestState → ℕ
base_ms s = s.compute_wait_ms + s.kv_load_wait_ms + s.prefill_compute_ms + s.unattributed_ttft_ms

-- The residual is `observed - base`, of which a negative one beyond the tolerance was refused; the sum
-- of the two differences is its absolute value.
abbrev pub closed_residual : (epsilon observed base : ℕ) → ℕ
closed_residual epsilon observed base =
    if leb ((observed - base) + (base - observed)) epsilon then 0 else observed - base

abbrev pub progressive_composition :
    (observed unattributed : ℕ) → RequestState → RequestTtftComposition
progressive_composition observed unattributed s = record {
  timeline_mode = progressive;
  ttft_granularity = chunk;
  observed_ttft_ms = observed;
  ttft_ms = s.compute_wait_ms + s.kv_load_wait_ms + s.prefill_compute_ms + unattributed;
  scheduler_wait_ms = s.compute_wait_ms + s.kv_load_wait_ms;
  compute_wait_ms = s.compute_wait_ms;
  kv_load_wait_ms = s.kv_load_wait_ms;
  uncached_prefill_compute_ms = s.prefill_compute_ms;
  unattributed_ttft_ms = unattributed;
  chunk_count = s.chunk_count;
  load_event_count = s.load_event_count;
}

unfoldable pub compose_progressive :
    (epsilon : ℕ)
    → SimulationRequest
    → RequestState
    → (finish_time : ℕ) → Result RequestTtftComposition
compose_progressive epsilon request s finish_time = do
  let observed = finish_time - request.start_time_ms
  reject_if (ltb (observed + epsilon) (base_ms s))
  let residual = closed_residual epsilon observed (base_ms s)
  ok (progressive_composition observed (s.unattributed_ttft_ms + residual) s)

-- the branches on the mode
compose_mode :
    TimelineMode
    → (epsilon : ℕ) → SimulationRequest
    → RequestState
    → (finish_time first_scheduled : ℕ) → Result RequestTtftComposition
unfolding compose_legacy compose_progressive
compose_mode legacy epsilon request s finish_time first_scheduled =
    ok (compose_legacy request s finish_time first_scheduled)
compose_mode progressive epsilon request s finish_time first_scheduled =
    compose_progressive epsilon request s finish_time
compose_mode (other_mode name) epsilon request s finish_time first_scheduled = raise value_error

unfoldable pub compose :
    (epsilon : ℕ)
    → SimulationRequest
    → RequestState
    → (finish_time first_scheduled : ℕ) → Result RequestTtftComposition
unfolding compose_mode
compose epsilon request s finish_time first_scheduled = do
  reject_if (ltb finish_time request.start_time_ms)
  reject_if (ltb first_scheduled request.start_time_ms)
  compose_mode s.timeline_mode epsilon request s finish_time first_scheduled
