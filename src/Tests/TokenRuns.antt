-- ===== src/Tests/TokenRuns.antt =====
-- The theorems on block sizes, cached tokens, materialization and events, applied.
use infer_twin.Base.Gcd.{lcm}
use infer_twin.Base.{ℕ, List, [], ◌∷◌, none, some, ok, ◌≡◌, refl, arith}
use infer_twin.Cache.Accounting.{AccountedLookupResult, account_prefix_lookup}
use infer_twin.Cache.Accounting.Inferred.{Inferred}
use infer_twin.Cache.Accounting.Laws.{
  Accounted, account_prefix_lookup-Accounted, account_prefix_lookup-legacy,
}
use infer_twin.Cache.BlockSize.{BlockSizeInput, BlockSizeResolution, hybrid, resolve}
use infer_twin.Cache.BlockSize.Laws.{IsChecked, Resolved, resolve-Resolved}
use infer_twin.Cache.Conversion.{CacheBlockConversionInput, CacheBlockConversionResult, calculate}
use infer_twin.Cache.Conversion.Laws.{Bounds, Cached, calculate-Cached}
use infer_twin.Cache.Events.{CacheEvent, evict, lookup_hit, EventType, hbm}
use infer_twin.Cache.EventSink.{InMemoryCacheEventSink, no_events, emit_many, record_many}
use infer_twin.Cache.EventSink.Laws.{Counted, Kept, record_many-Counted, emit_many-Kept}
use infer_twin.Tests.Samples.{found_ab}

-- a hybrid cache with groups of 4 and 6
abbrev groups : BlockSizeInput
groups = record {
  requested_block_size = 4;
  runtime_block_size = none;
  prefill_context_parallel_size = 1;
  decode_context_parallel_size = 1;
  cache_family = hybrid;
  hybrid_group_block_sizes = 4 ∷ 6 ∷ [];
}

abbrev twelve : BlockSizeResolution
twelve = record {
  requested_block_size = 4;
  runtime_block_size = 4;
  effective_block_size = 12;
  prefill_context_parallel_size = 1;
  decode_context_parallel_size = 1;
  cache_family = hybrid;
  hybrid_group_block_sizes = 4 ∷ 6 ∷ [];
  unsupported_reason = none;
}

groups-twelve : resolve groups ≡ ok twelve
unfolding resolve lcm
groups-twelve = refl

resolve-Resolved_example : IsChecked groups × Resolved groups hybrid twelve
resolve-Resolved_example = resolve-Resolved groups groups-twelve

abbrev conversion_input : CacheBlockConversionInput
conversion_input = record {
  prompt_tokens = 40;
  block_size = twelve;
  matched_blocks = some 3;
  speculative_drop_blocks = 1;
}

calculate-Cached_example :
    (r : CacheBlockConversionResult) × (calculate conversion_input ≡ ok r)
    × Bounds 40 r
    × Cached conversion_input r
calculate-Cached_example = calculate-Cached conversion_input (omega arith) refl

-- eleven tokens in blocks of four, of which one matched block is dropped
abbrev one_dropped : CacheBlockConversionResult
one_dropped = record {
  requested_block_size = 4;
  runtime_block_size = 4;
  effective_block_size = 4;
  max_cache_hit_length = 10;
  max_matchable_blocks = 2;
  matched_blocks = 0;
  speculative_drop_blocks = 1;
  cached_blocks = 0;
  cached_tokens = 0;
  unsupported_reason = none;
}

one_dropped-Bounds : Bounds 11 one_dropped
one_dropped-Bounds = record { positive = omega arith; longest = refl; matchable = omega arith }

account_prefix_lookup-Accounted_example :
    (x : AccountedLookupResult) × (account_prefix_lookup found_ab 11 (some one_dropped) ≡ ok x)
    × Accounted found_ab 11 one_dropped x
account_prefix_lookup-Accounted_example =
    account_prefix_lookup-Accounted found_ab 11 one_dropped one_dropped-Bounds refl

account_prefix_lookup-legacy_example :
    (c : CacheBlockConversionResult) × (x : AccountedLookupResult) × (account_prefix_lookup found_ab
        11 none
      ≡ ok x)
    × (account_prefix_lookup found_ab 11 (some c) ≡ ok x)
    × Bounds 11 c
    × Inferred found_ab 11 c
    × Accounted found_ab 11 c x
account_prefix_lookup-legacy_example = account_prefix_lookup-legacy found_ab 11

abbrev event_of : EventType → ℕ → CacheEvent
event_of type used = record {
  event_type = type;
  timestamp_ms = 5;
  instance_uuid = "i1";
  request_id = "r1";
  block_key = "a";
  block_index = 0;
  token_count = 4;
  cache_tier = hbm;
  reason = "test";
  eviction_policy = "lru";
  hbm_used_blocks = used;
  hbm_capacity_blocks = 8;
  ddr_used_blocks = 0;
  ddr_capacity_blocks = 0;
  source_tier = none;
  target_tier = none;
  load_tokens = 0;
  store_tokens = 0;
}

abbrev some_events : List CacheEvent
some_events = event_of lookup_hit 3 ∷ event_of evict 2 ∷ event_of lookup_hit 5 ∷ []

-- a sink that is full after two events
abbrev small_sink : InMemoryCacheEventSink
small_sink = record { max_events = some 2; events = []; stats = no_events }

record_many-Counted_example : Counted no_events some_events (record_many some_events no_events)
record_many-Counted_example = record_many-Counted some_events no_events

emit_many-Kept_example :
    Kept small_sink some_events
      (emit_many some_events small_sink).0
      (emit_many some_events small_sink).1
emit_many-Kept_example = emit_many-Kept some_events small_sink
