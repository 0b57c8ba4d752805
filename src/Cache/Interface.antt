-- ===== src/Cache/Interface.antt =====
-- `PrefixCache` of src/infertwin/cache/base.py: what a replay asks of a cache.
use infer_twin.Base.{ℕ, String, List, Result}
use infer_twin.Cache.Events.{CacheEvent}
use infer_twin.Cache.Results.{PrefixLookupResult}
use infer_twin.Request.Block.{PrefixBlock}

pub record PrefixCache {ℓ} (C : Type ℓ) : Type ℓ where
  pub lookup_prefix :
      List PrefixBlock
      → (now_ms : ℕ) (request_id instance_uuid : String) → C
      → Result (PrefixLookupResult × C)
  pub materialize :
      (now_ms : ℕ) (request_id instance_uuid reason : String) → List PrefixBlock → C → Result C
  pub take_events : C → List CacheEvent × C
