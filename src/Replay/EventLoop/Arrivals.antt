-- ===== src/Replay/EventLoop/Arrivals.antt =====
-- src/infertwin/replay/event_loop.py: the requests of each instance, and the arrivals at its queue.
pub mod Laws
pub mod Grouping
use infer_twin.Base.Dict.{lookup, insert}
use infer_twin.Base.Order.{sorted}
use infer_twin.Base.{
  ℕ, ◌+◌, ◌-◌, String, false, not, List, [], ◌∷◌, ◌++◌, Option, none, some, Result, ok, reject_if,
  ◌>>=◌, ◌>>◌, if◌then◌else◌, leb, ltb, zero, suc,
}
use infer_twin.Replay.EventLoop.{Loop}
use infer_twin.Replay.Iteration.{is_progressive}
use infer_twin.Replay.Timeline.{TimelineMode, waiting_for_compute}
use infer_twin.Request.Arrival.{arrives_before}
use infer_twin.Request.Simulation.{SimulationRequest}
use infer_twin.Scheduler.Queue.{append}
use infer_twin.Scheduler.State.{RequestState, waiting, record_compute_wait}

abbrev pub or_empty : Option (List SimulationRequest) → List SimulationRequest
or_empty none = []
or_empty (some requests) = requests

-- `grouped.setdefault(instance_uuid, []).append(request)`
unfoldable pub add_to_group :
    SimulationRequest
    → List (String × List SimulationRequest)
    → List (String × List SimulationRequest)
add_to_group r groups =
    insert r.instance_uuid (or_empty (lookup r.instance_uuid groups) ++ r ∷ []) groups

unfoldable pub group :
    List SimulationRequest
    → List (String × List SimulationRequest)
    → List (String × List SimulationRequest)
unfolding add_to_group
group [] groups = groups
group (r ∷ requests) groups = group requests (add_to_group r groups)

unfoldable pub group_by_instance : List SimulationRequest → List (String × List SimulationRequest)
unfolding group
group_by_instance requests = group (sorted arrives_before requests) []

-- `x or 0`
abbrev pub or_zero : Option ℕ → ℕ
or_zero none = 0
or_zero (some n) = n

-- `_state_from_request`, with the defaults of `RequestState`
unfoldable pub state_from_request : SimulationRequest → ℕ → TimelineMode → RequestState
state_from_request request arrival_seq mode = record {
  request_id = request.request_id;
  tenant_id = request.tenant_id;
  instance_uuid = request.instance_uuid;
  arrival_time_ms = request.start_time_ms;
  prompt_tokens = request.prompt_tokens;
  prompt_blocks = request.prompt_blocks;
  effective_block_size = or_zero request.effective_block_size;
  model = request.model;
  tokenizer_profile = request.tokenizer_profile;
  arrival_seq = arrival_seq;
  status = waiting;
  cache_lookup_done = false;
  cached_tokens = 0;
  miss_tokens = none;
  num_computed_tokens = 0;
  first_scheduled_time_ms = none;
  finish_time_ms = none;
  scheduled_iteration_count = 0;
  pending_kv_load_tokens = 0;
  pending_kv_load_bytes = 0;
  kv_load_scheduled = false;
  prefill_compute_ms = 0;
  kv_load_ms = 0;
  queue_ms = 0;
  timeline_mode = mode;
  timeline_state = waiting_for_compute;
  compute_wait_ms = 0;
  kv_load_wait_ms = 0;
  unattributed_ttft_ms = 0;
  chunk_count = 0;
  load_event_count = 0;
  progressive_materialized_blocks = 0;
  progressive_materialized_tokens = 0;
  progressive_materialized_block_keys = [];
}

-- `_record_initial_compute_wait`
unfoldable pub record_initial_compute_wait : ℕ → RequestState → Result RequestState
record_initial_compute_wait now s = if not (is_progressive s.timeline_mode) then ok s else do
  reject_if (ltb now s.arrival_time_ms)
  ok (record_compute_wait (now - s.arrival_time_ms) s)

module _ {ℓ} {C : Type ℓ} (mode : TimelineMode) where
  -- one turn of `_move_arrivals`
  unfoldable pub arrive : SimulationRequest → Loop C → Result (Loop C)
  unfolding state_from_request record_initial_compute_wait
  arrive request l = do
    s ← record_initial_compute_wait l.now_ms (state_from_request request l.pending_index mode)
    ok (record l {
      states = l.states ++ s ∷ [];
      waiting = append l.pending_index l.waiting;
      states_by_id = insert s.request_id l.pending_index l.states_by_id;
      requests_by_id = insert s.request_id request l.requests_by_id;
      pending_index = l.pending_index + 1;
    })

  -- `_move_arrivals`, over the pending requests
  unfoldable pub move_pending : List SimulationRequest → Loop C → Result (Loop C)
  unfolding arrive
  move_pending [] l = ok (record l { pending = [] })
  move_pending (request ∷ requests) l =
      if not (leb request.start_time_ms l.now_ms)
      then ok (record l { pending = request ∷ requests })
      else do l' ← arrive request l; move_pending requests l'

  unfoldable pub move_arrivals : Loop C → Result (Loop C)
  unfolding move_pending
  move_arrivals l = move_pending l.pending l
