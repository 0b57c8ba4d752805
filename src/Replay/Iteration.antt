-- ===== src/Replay/Iteration.antt =====
-- src/infertwin/replay/event_loop.py: the timeline states of a request around the application of a slice.
use infer_twin.Base.{Bool, true, false, ◌&&◌, not, if◌then◌else◌}
use infer_twin.Replay.Timeline.{TimelineMode, progressive, running_chunk, waiting_for_compute}
use infer_twin.Scheduler.State.{RequestState, is_finished}

abbrev pub is_progressive : TimelineMode → Bool
is_progressive progressive = true
is_progressive _ = false

-- `state.timeline_state = RUNNING_CHUNK`, in progressive mode
abbrev pub enter_chunk : TimelineMode → RequestState → RequestState
enter_chunk mode r = record r {
  timeline_state = if is_progressive mode then running_chunk else r.timeline_state;
}

-- `state.timeline_state = WAITING_FOR_COMPUTE`, in progressive mode and not at the end
abbrev pub leave_chunk : TimelineMode → RequestState → RequestState
leave_chunk mode r = record r {
  timeline_state =
      if is_progressive mode && not (is_finished r.status)
      then waiting_for_compute
      else r.timeline_state;
}
