-- ===== src/Scheduler/State.antt =====
-- src/infertwin/scheduler/state.py: `RequestState`. A method returns the new state. Counters and
-- times are natural numbers, so the checks that they are not negative always pass.
pub mod Laws
pub mod Materialized
use infer_twin.Base.Dict.{contains}
use infer_twin.Base.{
  ℕ, ◌+◌, ◌-◌, String, Bool, true, false, ◌&&◌, ◌||◌, not, List, [], ◌∷◌, ◌++◌, Option, none, some,
  Result, ok, raise, value_error, reject_if, ◌>>=◌, ◌>>◌, if◌then◌else◌, leb, ltb, ◌==◌,
}
use infer_twin.Replay.Timeline.{
  TimelineMode, RequestTimelineState, waiting_for_compute, finished as timeline_finished,
}
use infer_twin.Request.Block.{PrefixBlock}

pub data RequestStatus : Type 0 where
  waiting running finished : RequestStatus

pub record RequestState : Type 0 where
  pub request_id : String
  pub tenant_id : String
  pub instance_uuid : String
  pub arrival_time_ms : ℕ
  pub prompt_tokens : ℕ
  pub prompt_blocks : List PrefixBlock
  pub effective_block_size : ℕ
  pub model : String
  pub tokenizer_profile : String
  pub arrival_seq : ℕ
  pub status : RequestStatus
  pub cache_lookup_done : Bool
  pub cached_tokens : ℕ
  pub miss_tokens : Option ℕ
  pub num_computed_tokens : ℕ
  pub first_scheduled_time_ms : Option ℕ
  pub finish_time_ms : Option ℕ
  pub scheduled_iteration_count : ℕ
  pub pending_kv_load_tokens : ℕ
  pub pending_kv_load_bytes : ℕ
  pub kv_load_scheduled : Bool
  pub prefill_compute_ms : ℕ
  pub kv_load_ms : ℕ
  pub queue_ms : ℕ
  pub timeline_mode : TimelineMode
  pub timeline_state : RequestTimelineState
  pub compute_wait_ms : ℕ
  pub kv_load_wait_ms : ℕ
  pub unattributed_ttft_ms : ℕ
  pub chunk_count : ℕ
  pub load_event_count : ℕ
  pub progressive_materialized_blocks : ℕ
  pub progressive_materialized_tokens : ℕ
  pub progressive_materialized_block_keys : List String

abbrev pub is_waiting : RequestStatus → Bool
is_waiting waiting = true
is_waiting _ = false

abbrev pub is_running : RequestStatus → Bool
is_running running = true
is_running _ = false

abbrev pub is_finished : RequestStatus → Bool
is_finished finished = true
is_finished _ = false

abbrev pub is_some {ℓ} : {A : Type ℓ} → Option A → Bool
is_some none = false
is_some (some x) = true

unfoldable pub set_cache_lookup :
    (cached miss load_tokens load_bytes : ℕ) → RequestState → Result RequestState
set_cache_lookup cached miss load_tokens load_bytes s = do
  reject_if s.cache_lookup_done
  reject_if (not (cached + miss == s.prompt_tokens))
  ok (record s {
    cached_tokens = cached;
    miss_tokens = some miss;
    num_computed_tokens = cached;
    pending_kv_load_tokens = load_tokens;
    pending_kv_load_bytes = load_bytes;
    kv_load_scheduled = false;
    cache_lookup_done = true;
  })

unfoldable pub require_cache_lookup : RequestState → Result (Unit {0})
require_cache_lookup s = reject_if (not s.cache_lookup_done || not (is_some s.miss_tokens))

unfoldable pub has_pending_kv_load : RequestState → Result Bool
unfolding require_cache_lookup
has_pending_kv_load s = do
  require_cache_lookup s
  ok (not s.kv_load_scheduled && (ltb 0 s.pending_kv_load_tokens || ltb 0 s.pending_kv_load_bytes))

-- the tokens and bytes to load, exactly once
unfoldable pub consume_pending_kv_load : RequestState → Result ((ℕ × ℕ) × RequestState)
unfolding has_pending_kv_load
consume_pending_kv_load s = do
  pending ← has_pending_kv_load s
  if not pending
      then ok ((0, 0), s)
      else ok (
        (s.pending_kv_load_tokens, s.pending_kv_load_bytes),
        record s {
          pending_kv_load_tokens = 0;
          pending_kv_load_bytes = 0;
          kv_load_scheduled = true;
        },
      )

unfoldable pub record_latency_contribution :
    (prefill_compute kv_load queue : ℕ) → RequestState → RequestState
record_latency_contribution prefill_compute kv_load queue s = record s {
  prefill_compute_ms = s.prefill_compute_ms + prefill_compute;
  kv_load_ms = s.kv_load_ms + kv_load;
  queue_ms = s.queue_ms + queue;
}

unfoldable pub record_compute_wait : ℕ → RequestState → RequestState
record_compute_wait duration s = record s { compute_wait_ms = s.compute_wait_ms + duration }

unfoldable pub record_kv_load_wait : ℕ → RequestState → RequestState
record_kv_load_wait duration s = record s { kv_load_wait_ms = s.kv_load_wait_ms + duration }

unfoldable pub record_kv_load_event : ℕ → RequestState → RequestState
unfolding record_kv_load_wait
record_kv_load_event duration s =
    let s' = record_kv_load_wait duration s in
    record s' { load_event_count = s'.load_event_count + 1 }

unfoldable pub record_prefill_chunk : RequestState → RequestState
record_prefill_chunk s = record s { chunk_count = s.chunk_count + 1 }

-- the blocks that were not recorded before, and the state that has recorded them
unfoldable pub record_progressive_materialization :
    List PrefixBlock → RequestState → List PrefixBlock × RequestState
record_progressive_materialization [] s = ([], s)
record_progressive_materialization (b ∷ bs) s =
    elim (contains b.block_key s.progressive_materialized_block_keys) [
      | true ↦ record_progressive_materialization bs s
      | false ↦
          let s' : RequestState = record s {
            progressive_materialized_block_keys =
                s.progressive_materialized_block_keys ++ b.block_key ∷ [];
            progressive_materialized_blocks = s.progressive_materialized_blocks + 1;
            progressive_materialized_tokens = s.progressive_materialized_tokens + b.token_count;
          } in
          let (recorded, s'') = record_progressive_materialization bs s' in (b ∷ recorded, s'')
    ]

-- `max(0, prompt - computed)` is the subtraction of natural numbers
unfoldable pub remaining_prefill_tokens : RequestState → Result ℕ
unfolding require_cache_lookup
remaining_prefill_tokens s = do require_cache_lookup s; ok (s.prompt_tokens - s.num_computed_tokens)

-- the end of a request
abbrev pub finish : ℕ → RequestState → RequestState
finish time s = record s {
  status = finished;
  timeline_state = timeline_finished;
  finish_time_ms = some time;
}

unfoldable pub apply_scheduled_tokens : (scheduled time : ℕ) → RequestState → Result RequestState
unfolding require_cache_lookup remaining_prefill_tokens record_prefill_chunk
apply_scheduled_tokens scheduled time s = do
  require_cache_lookup s
  reject_if (leb scheduled 0)
  reject_if (ltb time s.arrival_time_ms)
  remaining ← remaining_prefill_tokens s
  reject_if (ltb remaining scheduled)
  let s' = record_prefill_chunk (record s {
    num_computed_tokens = s.num_computed_tokens + scheduled;
    scheduled_iteration_count = s.scheduled_iteration_count + 1;
  })
  ok (if s'.num_computed_tokens == s'.prompt_tokens then finish time s' else s')

unfoldable pub apply_load_only_iteration : ℕ → RequestState → Result RequestState
unfolding require_cache_lookup remaining_prefill_tokens
apply_load_only_iteration time s = do
  require_cache_lookup s
  reject_if (ltb time s.arrival_time_ms)
  remaining ← remaining_prefill_tokens s
  reject_if (not (remaining == 0))
  ok (finish time (record s { scheduled_iteration_count = s.scheduled_iteration_count + 1 }))
