-- ===== src/Streaming/Scopes.antt =====
-- src/infertwin/streaming/metrics.py: `CapacitySweepStreamingMetricAggregator`, an accumulator of the whole
-- trace and one per instance. `divide` is the division of floating point numbers.
pub mod Laws
use infer_twin.Base.Dict.{lookup, insert}
use infer_twin.Base.Order.{str_le, sorted}
use infer_twin.Base.{
  ℕ, ◌+◌, String, str_eq, Bool, true, false, not, List, [], ◌∷◌, Option, none, some, Result, ok,
  reject_if, ◌>>=◌, ◌>>◌, ◌==◌, if◌then◌else◌, ltb,
}
use infer_twin.Experiment.Rows.{Scope, trace, instance_scope, CapacitySweepRow, sort_capacity_rows}
use infer_twin.Replay.Metrics.Build.{BatchAwareRequestMetrics, IterationMetrics}
use infer_twin.Replay.Timeline.{TimelineMode, TtftGranularity}
use infer_twin.Streaming.Aggregate
use infer_twin.Streaming.Aggregate.{ScopeAccumulator, new_accumulator, to_row}

pub record Aggregator : Type 0 where
  pub trace : ScopeAccumulator
  pub instances : List (String × ScopeAccumulator)
  pub timeline_mode : TimelineMode
  pub ttft_granularity : TtftGranularity

unfoldable pub new_aggregator : TimelineMode → TtftGranularity → Aggregator
new_aggregator mode granularity = record {
  trace = new_accumulator mode granularity;
  instances = [];
  timeline_mode = mode;
  ttft_granularity = granularity;
}

abbrev pub or_new : TimelineMode → TtftGranularity → Option ScopeAccumulator → ScopeAccumulator
or_new mode granularity none = new_accumulator mode granularity
or_new mode granularity (some acc) = acc

-- the accumulator of an instance, a new one where it has none
unfoldable pub accumulator : String → Aggregator → ScopeAccumulator
accumulator instance_uuid a =
    or_new a.timeline_mode a.ttft_granularity (lookup instance_uuid a.instances)

-- `_instance`; the new accumulator is stored together with what it is fed
unfoldable pub instance_of : String → Aggregator → Result ScopeAccumulator
unfolding accumulator
instance_of instance_uuid a = do
  reject_if (str_eq instance_uuid "")
  ok (accumulator instance_uuid a)

-- `_validate_request_metric`
unfoldable pub validate_request_metric : BatchAwareRequestMetrics → Result (Unit {0})
validate_request_metric m =
    reject_if (not (m.hbm_hit_tokens + m.ddr_hit_tokens + m.miss_tokens == m.prompt_tokens))

unfoldable pub on_request : BatchAwareRequestMetrics → Aggregator → Result Aggregator
unfolding instance_of validate_request_metric
on_request m a = do
  validate_request_metric m
  all ← Aggregate.on_request m a.trace
  acc ← instance_of m.instance_uuid a
  own ← Aggregate.on_request m acc
  ok (record a { trace = all; instances = insert m.instance_uuid own a.instances })

unfoldable pub on_iteration : IterationMetrics → Aggregator → Result Aggregator
unfolding instance_of
on_iteration m a = do
  all ← Aggregate.on_iteration m a.trace
  acc ← instance_of m.instance_uuid a
  own ← Aggregate.on_iteration m acc
  ok (record a { trace = all; instances = insert m.instance_uuid own a.instances })

-- `sorted(self._instances.items())`; no two have one key
abbrev pub key_before : String × ScopeAccumulator → String × ScopeAccumulator → Bool
key_before (a, x) (b, y) = str_le a b

-- the rows of the instances with requests
unfoldable pub instance_rows :
    (divide : ℕ → ℕ → ℕ) (capacity : ℕ)
    → List (String × ScopeAccumulator)
    → Result (List CapacitySweepRow)
unfolding to_row
instance_rows divide capacity [] = ok []
instance_rows divide capacity ((instance_uuid, acc) ∷ instances) =
    let rest = instance_rows divide capacity instances in
    if not (ltb 0 acc.request_count) then rest else do
      row ← to_row divide capacity instance_scope instance_uuid 0 acc
      rows ← rest
      ok (row ∷ rows)

-- `cache_event_count` is the total of the statistics of the cache events.
unfoldable pub build_rows :
    (divide : ℕ → ℕ → ℕ) (capacity cache_event_count : ℕ)
    → Aggregator
    → Result (List CapacitySweepRow)
unfolding to_row instance_rows
build_rows divide capacity cache_event_count a = do
  row ← to_row divide capacity trace "" cache_event_count a.trace
  rows ← instance_rows divide capacity (sorted key_before a.instances)
  ok (sort_capacity_rows (row ∷ rows))
