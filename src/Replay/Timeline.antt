-- ===== src/Replay/Timeline.antt =====
-- The modes and the request states of src/infertwin/replay/timeline.py. The constants for a mode are
-- constructors, beside any other text.
use infer_twin.Base.{String}

pub data TimelineMode : Type 0 where
  legacy progressive : TimelineMode
  other_mode : String → TimelineMode

pub data TtftGranularity : Type 0 where
  iteration chunk : TtftGranularity

pub data RequestTimelineState : Type 0 where
  pending waiting_for_compute waiting_for_kv_load running_chunk finished : RequestTimelineState
