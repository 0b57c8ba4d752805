-- ===== src/Instance/Replay.antt =====
-- src/infertwin/instance/replay.py: the ideal hit simulation, with one cache per instance that evicts
-- nothing and a heap of the blocks that are written when their requests finish. The heap is its events
-- in order; `divide` is the division of floating point numbers.
pub mod Laws
use infer_twin.Base.Dict.{lookup, insert}
use infer_twin.Base.Order.{insert_sorted, sorted}
use infer_twin.Base.{
  ℕ, ◌+◌, String, Bool, true, ◌&&◌, ◌||◌, List, [], ◌∷◌, Option, none, some, Result, ok, ◌>>=◌,
  if◌then◌else◌, leb, ltb, ◌==◌, length,
}
use infer_twin.Cache.Accounting.{AccountedLookupResult, account_prefix_lookup}
use infer_twin.Cache.Infinite.{InfiniteCache, init, lookup_prefix, materialize}
use infer_twin.Replay.Metrics.Build.{safe_rate}
use infer_twin.Request.Block.{PrefixBlock}
use infer_twin.Request.Simulation.{SimulationRequest}

pub record RequestMetrics : Type 0 where
  pub request_id : String
  pub tenant_id : String
  pub instance_uuid : String
  pub model : String
  pub tokenizer_profile : String
  pub prompt_tokens : ℕ
  pub prompt_blocks : ℕ
  pub hbm_hit_tokens : ℕ
  pub ddr_hit_tokens : ℕ
  pub miss_tokens : ℕ
  pub effective_hit_rate : ℕ
  pub ttft_ms : ℕ
  pub finish_time_ms : ℕ

-- `_MaterializeEvent`
pub record MaterializeEvent : Type 0 where
  pub finish_time_ms : ℕ
  pub sequence : ℕ
  pub instance_uuid : String
  pub blocks : List PrefixBlock

-- `InfiniteHBMReplayEngine`
pub record Engine : Type 0 where
  pub default_ttft_ms : ℕ
  pub instances : List (String × InfiniteCache)
  pub events : List MaterializeEvent
  pub sequence : ℕ

unfoldable pub new_engine : ℕ → Engine
new_engine default_ttft_ms = record {
  default_ttft_ms = default_ttft_ms;
  instances = [];
  events = [];
  sequence = 0;
}

abbrev pub or_init : Option InfiniteCache → InfiniteCache
or_init none = init
or_init (some c) = c

-- `_cache_for`; a cache that was new is stored together with its first change
unfoldable pub cache_for : String → Engine → InfiniteCache
cache_for instance_uuid e = or_init (lookup instance_uuid e.instances)

-- the order of the fields that are compared
abbrev pub event_before : MaterializeEvent → MaterializeEvent → Bool
event_before a b =
    ltb a.finish_time_ms b.finish_time_ms
    || (a.finish_time_ms == b.finish_time_ms && leb a.sequence b.sequence)

-- `_schedule_materialize`
unfoldable pub schedule_materialize :
    (instance_uuid : String) → List PrefixBlock → (finish_time : ℕ) → Engine → Engine
unfolding insert_sorted
schedule_materialize instance_uuid [] finish_time e = e
schedule_materialize instance_uuid (b ∷ blocks) finish_time e =
    let event : MaterializeEvent = record {
      finish_time_ms = finish_time;
      sequence = e.sequence + 1;
      instance_uuid = instance_uuid;
      blocks = b ∷ blocks;
    } in
    record e { sequence = e.sequence + 1; events = insert_sorted event_before event e.events }

-- `finish_time_ms <= now_ms`; no time is infinity
abbrev pub due : Option ℕ → MaterializeEvent → Bool
due none event = true
due (some now) event = leb event.finish_time_ms now

-- the cache of the event's instance with its blocks
abbrev pub apply_event : MaterializeEvent → Engine → Engine
apply_event event e =
    let cache = materialize event.finish_time_ms event.blocks (cache_for event.instance_uuid e) in
    record e { instances = insert event.instance_uuid cache e.instances }

-- the loop of `_flush_events_until` over the events in the heap
unfoldable pub flush_loop : Option ℕ → List MaterializeEvent → Engine → Engine
flush_loop now [] e = record e { events = [] }
flush_loop now (event ∷ events) e =
    if due now event
    then flush_loop now events (apply_event event e)
    else record e { events = event ∷ events }

-- `_flush_events_until`
unfoldable pub flush_events_until : Option ℕ → Engine → Engine
unfolding flush_loop
flush_events_until now e = flush_loop now e.events e

unfoldable pub request_metrics :
    (divide : ℕ → ℕ → ℕ) (ttft finish_time : ℕ)
    → SimulationRequest
    → AccountedLookupResult
    → RequestMetrics
request_metrics divide ttft finish_time r a = record {
  request_id = r.request_id;
  tenant_id = r.tenant_id;
  instance_uuid = r.instance_uuid;
  model = r.model;
  tokenizer_profile = r.tokenizer_profile;
  prompt_tokens = r.prompt_tokens;
  prompt_blocks = length r.prompt_blocks;
  hbm_hit_tokens = a.hbm_hit_tokens;
  ddr_hit_tokens = a.ddr_hit_tokens;
  miss_tokens = a.miss_tokens;
  effective_hit_rate = safe_rate divide (a.hbm_hit_tokens + a.ddr_hit_tokens) r.prompt_tokens;
  ttft_ms = ttft;
  finish_time_ms = finish_time;
}

-- one turn of the loop of `run`
unfoldable pub replay_request :
    (divide : ℕ → ℕ → ℕ) → SimulationRequest → Engine → Result (RequestMetrics × Engine)
unfolding flush_events_until schedule_materialize cache_for request_metrics
replay_request divide r e = do
  let e1 = flush_events_until (some r.start_time_ms) e
  let (found, cache) = lookup_prefix r.start_time_ms r.prompt_blocks (cache_for r.instance_uuid e1)
  let e2 : Engine = record e1 { instances = insert r.instance_uuid cache e1.instances }
  accounted ← account_prefix_lookup found r.prompt_tokens r.block_conversion_result
  let finish_time = r.start_time_ms + e.default_ttft_ms
  ok (
    request_metrics divide e.default_ttft_ms finish_time r accounted,
    schedule_materialize r.instance_uuid accounted.materialization_blocks finish_time e2,
  )

unfoldable pub replay_all :
    (divide : ℕ → ℕ → ℕ) → List SimulationRequest → Engine → Result (List RequestMetrics × Engine)
unfolding replay_request
replay_all divide [] e = ok ([], e)
replay_all divide (r ∷ requests) e = do
  (m, e1) ← replay_request divide r e
  (metrics, e2) ← replay_all divide requests e1
  ok (m ∷ metrics, e2)

abbrev pub starts_before : SimulationRequest → SimulationRequest → Bool
starts_before a b = leb a.service_start_time b.service_start_time

unfoldable pub run :
    (divide : ℕ → ℕ → ℕ) → List SimulationRequest → Engine → Result (List RequestMetrics × Engine)
unfolding replay_all flush_events_until
run divide requests e = do
  (metrics, e1) ← replay_all divide (sorted starts_before requests) e
  ok (metrics, flush_events_until none e1)
