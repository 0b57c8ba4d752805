-- ===== src/Cache/EventSink.antt =====
-- src/infertwin/cache/event_sink.py: what is kept of a cache's events.
pub mod Laws
use infer_twin.Base.{
  ℕ, ◌+◌, Bool, true, false, List, [], ◌∷◌, ◌++◌, Option, none, some, Result, ok, raise,
  memory_error, value_error, reject_if, ◌>>=◌, ◌>>◌, if◌then◌else◌, leb, max, length,
}
use infer_twin.Cache.Events.{
  EventType, lookup_hit, lookup_miss, materialize, evict, store, CacheEvent,
}

pub record CacheEventStats : Type 0 where
  pub total_events : ℕ
  pub lookup_hit_events : ℕ
  pub lookup_miss_events : ℕ
  pub materialize_events : ℕ
  pub evict_events : ℕ
  pub store_events : ℕ
  pub peak_hbm_used_blocks : ℕ
  pub final_hbm_used_blocks : ℕ
  pub peak_ddr_used_blocks : ℕ
  pub final_ddr_used_blocks : ℕ

abbrev pub no_events : CacheEventStats
no_events = record {
  total_events = 0;
  lookup_hit_events = 0;
  lookup_miss_events = 0;
  materialize_events = 0;
  evict_events = 0;
  store_events = 0;
  peak_hbm_used_blocks = 0;
  final_hbm_used_blocks = 0;
  peak_ddr_used_blocks = 0;
  final_ddr_used_blocks = 0;
}

-- the counter of the event's kind
abbrev pub count_kind : EventType → CacheEventStats → CacheEventStats
count_kind lookup_hit s = record s { lookup_hit_events = s.lookup_hit_events + 1 }
count_kind lookup_miss s = record s { lookup_miss_events = s.lookup_miss_events + 1 }
count_kind materialize s = record s { materialize_events = s.materialize_events + 1 }
count_kind evict s = record s { evict_events = s.evict_events + 1 }
count_kind store s = record s { store_events = s.store_events + 1 }

-- `CacheEventStats.record`
unfoldable pub record_event : CacheEvent → CacheEventStats → CacheEventStats
record_event e s =
    let s' = count_kind e.event_type (record s { total_events = s.total_events + 1 }) in
    record s' {
      peak_hbm_used_blocks = max s'.peak_hbm_used_blocks e.hbm_used_blocks;
      final_hbm_used_blocks = e.hbm_used_blocks;
      peak_ddr_used_blocks = max s'.peak_ddr_used_blocks e.ddr_used_blocks;
      final_ddr_used_blocks = e.ddr_used_blocks;
    }

-- `StatsOnlyCacheEventSink.emit_many`
unfoldable pub record_many : List CacheEvent → CacheEventStats → CacheEventStats
unfolding record_event
record_many [] s = s
record_many (e ∷ es) s = record_many es (record_event e s)

pub record InMemoryCacheEventSink : Type 0 where
  pub max_events : Option ℕ
  pub events : List CacheEvent
  pub stats : CacheEventStats

abbrev is_limit : Option ℕ → Bool
is_limit none = true
is_limit (some n) = if leb n 0 then false else true

-- `__init__`
unfoldable pub new_sink : Option ℕ → Result InMemoryCacheEventSink
new_sink max_events =
    if is_limit max_events
    then ok (record { max_events = max_events; events = []; stats = no_events })
    else raise value_error

-- nothing can be appended
abbrev pub is_full : InMemoryCacheEventSink → Bool
is_full s = elim s.max_events [ none ↦ false | some n ↦ leb n (length s.events) ]

-- `emit_many`: what the sink has become, and the exception that ended it, if any. The events before
-- the exception stay in the sink.
unfoldable pub emit_many :
    List CacheEvent → InMemoryCacheEventSink → InMemoryCacheEventSink × Result (Unit {0})
unfolding record_event
emit_many [] s = (s, ok tt)
emit_many (e ∷ es) s =
    let rest =
      emit_many es (record s { events = s.events ++ e ∷ []; stats = record_event e s.stats }) in
    if is_full s then (s, raise memory_error) else rest
