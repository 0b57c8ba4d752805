-- ===== src/Tests/InstanceRuns.antt =====
-- The ideal hit simulation of small requests.
use infer_twin.Base.{ℕ, ◌/◌, List, [], ◌∷◌, some, Result, ok, ◌>>=◌, map, arith}
use infer_twin.Instance.Replay.Laws.{Written, schedule-flush-Written}
use infer_twin.Instance.Replay.{Engine, new_engine, schedule_materialize, flush_events_until, run}
use infer_twin.Tests.RequestSamples.{request}
use infer_twin.Tests.Samples.{a, b, d}

-- an engine with two events, one of them due at 10
abbrev busy : Engine
busy = record (new_engine 5) {
  events =
      (record { finish_time_ms = 8; sequence = 1; instance_uuid = "i1"; blocks = a ∷ [] })
      ∷ (record { finish_time_ms = 12; sequence = 2; instance_uuid = "i2"; blocks = b ∷ [] })
      ∷ [];
  sequence = 2;
}

schedule-flush-Written_example :
    Written
      (some 10)
      "i2"
      (d ∷ [])
      9
      busy
      (flush_events_until (some 10) (schedule_materialize "i2" (d ∷ []) 9 busy))
schedule-flush-Written_example =
    schedule-flush-Written (some 10) "i2" (d ∷ []) 9 busy ((omega arith, tt), (tt, tt))

-- The second request starts before the first one finishes, the third one after it.
abbrev three_requests : Result (List (ℕ × ℕ))
unfolding run new_engine
three_requests = do
  (metrics, e) ← run ◌/◌ (request "r1" 0 ∷ request "r2" 3 ∷ request "r3" 7 ∷ []) (new_engine 5)
  ok (map (λ m. (m.hbm_hit_tokens, m.miss_tokens)) metrics)
