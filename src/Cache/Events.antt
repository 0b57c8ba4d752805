-- ===== src/Cache/Events.antt =====
-- src/infertwin/cache/events.py: the events that caches emit. The string constants for the kind of
-- an event and for a tier are constructors; the empty tier is `none`.
use infer_twin.Base.{ℕ, String, Option}

pub data EventType : Type 0 where
  lookup_hit lookup_miss materialize evict store : EventType

pub data CacheTier : Type 0 where
  hbm ddr : CacheTier

pub record CacheEvent : Type 0 where
  pub event_type : EventType
  pub timestamp_ms : ℕ
  pub instance_uuid : String
  pub request_id : String
  pub block_key : String
  pub block_index : ℕ
  pub token_count : ℕ
  pub cache_tier : CacheTier
  pub reason : String
  pub eviction_policy : String
  pub hbm_used_blocks : ℕ
  pub hbm_capacity_blocks : ℕ
  pub ddr_used_blocks : ℕ
  pub ddr_capacity_blocks : ℕ
  pub source_tier : Option CacheTier
  pub target_tier : Option CacheTier
  pub load_tokens : ℕ
  pub store_tokens : ℕ
