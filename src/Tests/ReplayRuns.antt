-- ===== src/Tests/ReplayRuns.antt =====
-- The theorems on latencies and on the metrics of a replay, applied.
use infer_twin.Base.{ℕ, ◌+◌, ◌*◌, String, [], ◌∷◌, Result, ok, ◌≡◌, refl, false}
use infer_twin.Latency.Memo.Laws.{through_memo, directly, through_memo-directly}
use infer_twin.Latency.Memo.{ShapeMemo, find}
use infer_twin.Latency.Schema.{ShapeKey, LatencyResult, amount, from_shape}
use infer_twin.Replay.EventLoop.Arrivals.{state_from_request}
use infer_twin.Replay.Metrics.Latency.{IterationLatencyBreakdown}
use infer_twin.Replay.Metrics.Lookup.Laws.{Recorded, record_lookup-Recorded}
use infer_twin.Replay.Metrics.Lookup.{LookupMetrics, record_lookup}
use infer_twin.Replay.Timeline.{progressive}
use infer_twin.Replay.Ttft.Laws.{Composed, compose-Composed}
use infer_twin.Replay.Ttft.{compose}
use infer_twin.Scheduler.BatchShape.{
  ScheduledSlice, BatchShape, scheduled_prefill_tokens, kv_load_bytes,
}
use infer_twin.Scheduler.State.{RequestState}
use infer_twin.Tests.RequestSamples.{request}
use infer_twin.Tests.Samples.{found_ab}

-- seven tokens of one request and one of another, which loads
abbrev slice : String → (scheduled load : ℕ) → ScheduledSlice
slice id scheduled load = record {
  request_id = id;
  scheduled_prefill_tokens = scheduled;
  computed_tokens_before = 4;
  computed_tokens_after = 4 + scheduled;
  prompt_tokens = 11;
  cached_prefix_tokens = 4;
  previous_chunk_tokens = 0;
  kv_load_tokens = load;
  kv_load_bytes = load * 16;
}

abbrev shape : BatchShape
shape = record {
  instance_uuid = "i1";
  iteration_id = 0;
  start_time_ms = 9;
  request_slices = slice "r1" 7 0 ∷ slice "r2" 1 4 ∷ [];
  scheduled_decode_tokens = 0;
}

abbrev pub key : ShapeKey
key = from_shape "formula" "m" "h" shape

-- sixteen for the prefill, 128 to load, four in the queue
abbrev latency_of : ShapeKey → LatencyResult
latency_of k = record {
  duration_ms = 148;
  backend = "formula";
  shape_key = k;
  memoized = false;
  details = ("ttft_ms", amount 16) ∷ ("kv_load_ms", amount 128) ∷ ("queue_ms", amount 4) ∷ [];
}

abbrev backend : ShapeKey → Result LatencyResult
backend k = ok (latency_of k)

abbrev no_memo : ShapeMemo
no_memo = record { results = [] }

through_memo-directly_example :
    through_memo backend (key ∷ key ∷ []) no_memo ≡ directly backend (key ∷ key ∷ [])
unfolding find
through_memo-directly_example =
    through_memo-directly backend (key ∷ key ∷ []) no_memo answers (λ k r h. cc)
  where
    answers : (k : ShapeKey) (r : LatencyResult) → backend k ≡ ok r → r.shape_key ≡ k
    answers k r h = let e : latency_of k ≡ r = cc in cc

abbrev breakdown : IterationLatencyBreakdown
breakdown = record { prefill_compute_ms = 16; kv_load_ms = 128; queue_ms = 4 }

compose-Composed_example :
    Composed 1
      (request "r1" 3)
      (state_from_request (request "r1" 3) 0 progressive)
      20
      9
      (compose 1 (request "r1" 3) (state_from_request (request "r1" 3) 0 progressive) 20 9)
compose-Composed_example =
    compose-Composed 1 (request "r1" 3) (state_from_request (request "r1" 3) 0 progressive) 20 9

record_lookup-Recorded_example :
    (m : LookupMetrics) × (s' : RequestState) × (record_lookup found_ab
        (request "r1" 3)
        (state_from_request (request "r1" 3) 0 progressive)
      ≡ ok (m, s'))
    × Recorded found_ab (request "r1" 3) m s'
unfolding state_from_request
record_lookup-Recorded_example =
    record_lookup-Recorded found_ab (request "r1" 3)
      (state_from_request (request "r1" 3) 0 progressive) tt refl refl
