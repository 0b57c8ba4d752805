-- ===== src/Cache/Ddr.antt =====
-- src/infertwin/cache/ddr_lru.py: `DDRLRUCache`. Its code is that of `HBMCache` with another tier in
-- its events and results, so each operation is the one of `Store` at the DDR tier.
use infer_twin.Base.{ℕ, String, Bool, List, Result}
use infer_twin.Cache.Events.{CacheEvent, ddr}
use infer_twin.Cache.Eviction.{BlockMeta, EvictionPolicy}
use infer_twin.Cache.Results.{PrefixLookupResult}
use infer_twin.Cache.Store
use infer_twin.Cache.Store.{Store, Call}
use infer_twin.Request.Block.{PrefixBlock}

-- `DDRBlockMeta`, of a block that is stored
abbrev pub new_ddr_meta : Call → PrefixBlock → ℕ → BlockMeta
new_ddr_meta = Store.new_meta

module _ {P : EvictionPolicy} where
  -- `__init__`
  abbrev pub init_ddr : ℕ → Result (Store P)
  init_ddr capacity = Store.init ddr capacity

  abbrev pub ddr_holds : Store P → String → Bool
  ddr_holds = Store.holds

  abbrev pub lookup_ddr_prefix :
      Call → List PrefixBlock → Store P → Result (PrefixLookupResult × Store P)
  lookup_ddr_prefix = Store.lookup_prefix

  -- `store`
  abbrev pub store_blocks : Call → String → List PrefixBlock → Store P → Result (Store P)
  store_blocks = Store.write

  abbrev pub take_ddr_events : Store P → List CacheEvent × Store P
  take_ddr_events = Store.take_events

  -- `_evict_one`
  abbrev pub evict_one_ddr : Call → Store P → Result (Store P)
  evict_one_ddr = Store.evict_one
