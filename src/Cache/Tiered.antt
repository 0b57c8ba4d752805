-- ===== src/Cache/Tiered.antt =====
-- src/infertwin/cache/tiered.py: `TieredPrefixCache`, an HBM tier in front of a DDR tier.
pub mod Laws
pub mod Found
use infer_twin.Base.{
  ℕ, ◌+◌, String, Bool, ◌||◌, List, [], ◌++◌, Result, ok, ◌>>=◌, str_eq, if◌then◌else◌,
}
use infer_twin.Cache.Ddr.{ddr_holds, lookup_ddr_prefix, store_blocks, take_ddr_events}
use infer_twin.Cache.Events.{CacheEvent}
use infer_twin.Cache.Eviction.{EvictionPolicy}
use infer_twin.Cache.Results.{PrefixLookupResult}
use infer_twin.Cache.Store
use infer_twin.Cache.Store.{Store, Call}
use infer_twin.Request.Block.{PrefixBlock}

pub record TieredCache (P Q : EvictionPolicy) : Type 0 where
  pub hbm : Store P
  pub ddr : Store Q
  pub events : List CacheEvent

-- `TieredCacheStats`
pub record TieredCacheStats : Type 0 where
  pub hbm_resident_blocks : ℕ
  pub hbm_capacity_blocks : ℕ
  pub ddr_resident_blocks : ℕ
  pub ddr_capacity_blocks : ℕ

-- `_ddr_store_reason`
unfoldable pub ddr_store_reason : String → String
ddr_store_reason reason =
    if str_eq reason "progressive_chunk_materialization"
    then "progressive_chunk_store"
    else "finish_time_store"

-- The call of the DDR tier reports the HBM tier's occupancy.
abbrev pub ddr_call : {P : EvictionPolicy} → Call → Store P → Call
ddr_call c hbm = record c {
  hbm_used_blocks = Store.resident_blocks hbm;
  hbm_capacity_blocks = hbm.capacity_blocks;
}

module _ {P Q : EvictionPolicy} where
  unfoldable pub init : Store P → Store Q → TieredCache P Q
  init hbm ddr = record { hbm = hbm; ddr = ddr; events = [] }

  unfoldable pub resident_blocks : TieredCache P Q → ℕ
  resident_blocks s = Store.resident_blocks s.hbm + Store.resident_blocks s.ddr

  unfoldable pub stats : TieredCache P Q → TieredCacheStats
  stats s = record {
    hbm_resident_blocks = Store.resident_blocks s.hbm;
    hbm_capacity_blocks = s.hbm.capacity_blocks;
    ddr_resident_blocks = Store.resident_blocks s.ddr;
    ddr_capacity_blocks = s.ddr.capacity_blocks;
  }

  unfoldable pub holds : TieredCache P Q → String → Bool
  unfolding Store.holds
  holds s key = Store.holds s.hbm key || ddr_holds s.ddr key

  -- `_drain_hbm_events`
  unfoldable pub drain_hbm : TieredCache P Q → TieredCache P Q
  unfolding Store.take_events
  drain_hbm s =
      let (drained, hbm) = Store.take_events s.hbm in
      record s { hbm = hbm; events = s.events ++ drained }

  -- `_drain_ddr_events`
  unfoldable pub drain_ddr : TieredCache P Q → TieredCache P Q
  unfolding Store.take_events
  drain_ddr s =
      let (drained, ddr) = take_ddr_events s.ddr in
      record s { ddr = ddr; events = s.events ++ drained }

  unfoldable pub lookup_prefix :
      Call → List PrefixBlock → TieredCache P Q → Result (PrefixLookupResult × TieredCache P Q)
  unfolding drain_hbm drain_ddr
  lookup_prefix c blocks s = do
    (h, hbm) ← Store.lookup_prefix c blocks s.hbm
    let s1 = drain_hbm (record s { hbm = hbm })
    (d, ddr) ← lookup_ddr_prefix (ddr_call c s1.hbm) h.miss_blocks s1.ddr
    let s2 = drain_ddr (record s1 { ddr = ddr })
    let r : PrefixLookupResult = record {
      hbm_hit_blocks = h.hbm_hit_blocks;
      ddr_hit_blocks = d.ddr_hit_blocks;
      miss_blocks = d.miss_blocks;
    }
    ok (r, s2)

  unfoldable pub materialize :
      Call → String → List PrefixBlock → TieredCache P Q → Result (TieredCache P Q)
  unfolding drain_hbm drain_ddr ddr_store_reason
  materialize c reason blocks s = do
    hbm ← Store.write c reason blocks s.hbm
    let s1 = drain_hbm (record s { hbm = hbm })
    ddr ← store_blocks (ddr_call c s1.hbm) (ddr_store_reason reason) blocks s1.ddr
    ok (drain_ddr (record s1 { ddr = ddr }))

  unfoldable pub take_events : TieredCache P Q → List CacheEvent × TieredCache P Q
  unfolding drain_hbm drain_ddr
  take_events s = let s' = drain_ddr (drain_hbm s) in (s'.events, record s' { events = [] })
