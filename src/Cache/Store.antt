-- ===== src/Cache/Store.antt =====
-- src/infertwin/cache/hbm_lru.py and src/infertwin/cache/ddr_lru.py. `HBMCache` and `DDRLRUCache`
-- are the same code but for the tier that their events name and the name of the operation that
-- writes (`materialize`, `store`): a class is its tag, `tier`, and each function below follows both.
pub mod Lookup
pub mod Write
pub mod Order
use infer_twin.Base.Dict.{lookup, insert, remove, contains, keys}
use infer_twin.Base.{
  ℕ, zero, suc, ◌+◌, String, Bool, List, [], ◌∷◌, ◌++◌, Option, none, some, Result, ok, raise,
  value_error, key_error, out_of_fuel, if◌then◌else◌, length, leb, ◌==◌, str_eq, ◌>>=◌, ◌>>◌, drop,
  reject_if,
}
use infer_twin.Cache.Events.{CacheEvent, CacheTier, hbm, ddr, EventType}
use infer_twin.Cache.Eviction.{BlockMeta, EvictionPolicy}
use infer_twin.Cache.Results.{PrefixLookupResult}
use infer_twin.Request.Block.{PrefixBlock}

-- The arguments that every operation passes on to its events. The last two are arguments of the DDR
-- tier only.
pub record Call : Type 0 where
  pub now_ms : ℕ
  pub request_id : String
  pub instance_uuid : String
  pub hbm_used_blocks : ℕ
  pub hbm_capacity_blocks : ℕ

pub record Store (P : EvictionPolicy) : Type 0 where
  pub tier : CacheTier
  pub capacity_blocks : ℕ
  pub evictor : P.State
  pub blocks : List (String × BlockMeta)
  pub events : List CacheEvent
  pub access_seq : ℕ

-- `a or b`, of texts
abbrev pub or_else : String → String → String
or_else a b = if str_eq a "" then b else a

-- The occupancy that an event of a tier reports: HBM used and capacity, DDR used and capacity.
abbrev pub occupancy : CacheTier → Call → ℕ → ℕ → ℕ × ℕ × ℕ × ℕ
occupancy hbm c used capacity = (used, capacity, 0, 0)
occupancy ddr c used capacity = (c.hbm_used_blocks, c.hbm_capacity_blocks, used, capacity)

-- The event type of a write.
abbrev pub write_type : CacheTier → EventType
write_type hbm = EventType.materialize
write_type ddr = EventType.store

-- What a DDR event adds: the source of a hit, the target and the tokens of a store.
abbrev source_of : CacheTier → EventType → Option CacheTier
source_of ddr EventType.lookup_hit = some ddr
source_of _ _ = none

abbrev target_of : CacheTier → EventType → Option CacheTier
target_of ddr EventType.store = some ddr
target_of _ _ = none

abbrev store_tokens_of : CacheTier → EventType → ℕ → ℕ
store_tokens_of ddr EventType.store n = n
store_tokens_of _ _ n = 0

-- The tier says which of the two fields for hits is filled.
abbrev pub lookup_result : CacheTier → (hits misses : List PrefixBlock) → PrefixLookupResult
lookup_result hbm hits misses = record {
  hbm_hit_blocks = hits;
  ddr_hit_blocks = [];
  miss_blocks = misses;
}
lookup_result ddr hits misses = record {
  hbm_hit_blocks = [];
  ddr_hit_blocks = hits;
  miss_blocks = misses;
}

-- the metadata of a block that is written
abbrev pub new_meta : Call → PrefixBlock → ℕ → BlockMeta
new_meta c b seq = record {
  block_key = b.block_key;
  block_index = b.block_index;
  token_count = b.token_count;
  size_bytes = b.size_bytes;
  created_time_ms = c.now_ms;
  last_access_time_ms = c.now_ms;
  last_access_seq = seq;
  hit_count = 0;
  written_by_request_id = c.request_id;
  instance_uuid = c.instance_uuid;
}

-- What `_touch` makes of the metadata of a block.
abbrev pub touched : BlockMeta → ℕ → (seq hits : ℕ) → BlockMeta
touched m now seq hits = record m {
  last_access_time_ms = now;
  last_access_seq = seq;
  hit_count = m.hit_count + hits;
}

module _ {P : EvictionPolicy} where
  abbrev pub resident_blocks : Store P → ℕ
  resident_blocks s = length s.blocks

  unfoldable pub holds : Store P → String → Bool
  holds s key = contains key (keys s.blocks)

  -- the event of `_emit` and of `_evict_one`
  abbrev pub event :
      Store P
      → Call
      → EventType
      → (instance_uuid block_key : String) → (block_index token_count : ℕ) → (reason : String)
      → CacheEvent
  event s c type uuid key index count reason =
      let o = occupancy s.tier c (resident_blocks s) s.capacity_blocks in
      record {
        event_type = type;
        timestamp_ms = c.now_ms;
        instance_uuid = uuid;
        request_id = c.request_id;
        block_key = key;
        block_index = index;
        token_count = count;
        cache_tier = s.tier;
        reason = reason;
        eviction_policy = P.name;
        hbm_used_blocks = o.0;
        hbm_capacity_blocks = o.1;
        ddr_used_blocks = o.2;
        ddr_capacity_blocks = o.3;
        source_tier = source_of s.tier type;
        target_tier = target_of s.tier type;
        load_tokens = 0;
        store_tokens = store_tokens_of s.tier type count;
      }

  -- `_emit`
  unfoldable pub emit : Call → EventType → PrefixBlock → String → Store P → Store P
  emit c type b reason s = record s {
    events =
        s.events
        ++ event s c type c.instance_uuid b.block_key b.block_index b.token_count reason ∷ [];
  }

  -- `self._touch(meta, …)`, then `self._evictor.on_access(meta, …)`, of the metadata under a key
  unfoldable pub access : String → BlockMeta → ℕ → (hits : ℕ) → Store P → Result (Store P)
  access key m now hits s = do
    let m' = touched m now (s.access_seq + 1) hits
    evictor ← P.on_access m' s.evictor
    ok (record s {
      access_seq = s.access_seq + 1;
      blocks = insert key m' s.blocks;
      evictor = evictor;
    })

  -- the first loop of `lookup_prefix`, up to the first block that is not resident
  unfoldable pub lookup_hits :
      Call → List PrefixBlock → Store P → Result (List PrefixBlock × Store P)
  unfolding access emit
  lookup_hits c [] s = ok ([], s)
  lookup_hits c (b ∷ bs) s = elim (lookup b.block_key s.blocks) [
    | none ↦ ok ([], s)
    | some m ↦ do
      s' ← access b.block_key m c.now_ms 1 s
      (hits, s'') ← lookup_hits c bs (emit c EventType.lookup_hit b "prefix_hit" s')
      ok (b ∷ hits, s'')
  ]

  -- the second loop of `lookup_prefix`
  unfoldable pub emit_misses : Call → List PrefixBlock → Store P → Store P
  unfolding emit
  emit_misses c [] s = s
  emit_misses c (b ∷ bs) s = emit_misses c bs (emit c EventType.lookup_miss b "prefix_miss" s)

  unfoldable pub lookup_prefix :
      Call → List PrefixBlock → Store P → Result (PrefixLookupResult × Store P)
  unfolding lookup_hits emit_misses
  lookup_prefix c blocks s = do
    (hits, s') ← lookup_hits c blocks s
    let misses = drop (length hits) blocks
    ok (lookup_result s.tier hits misses, emit_misses c misses s')

  -- `self._blocks.pop(victim.block_key)`
  unfoldable pub pop_block : String → Store P → Result (BlockMeta × Store P)
  pop_block key s = elim (lookup key s.blocks) [
    | none ↦ raise key_error
    | some m ↦ ok (m, record s { blocks = remove key s.blocks })
  ]

  -- the end of `_evict_one`, once the victim is out of the blocks and of the policy
  abbrev pub evicted : Call → BlockMeta → P.State → Store P → Store P
  evicted c removed evictor s = record s {
    evictor = evictor;
    events =
        s.events
        ++ event s c EventType.evict (or_else c.instance_uuid removed.instance_uuid)
            removed.block_key removed.block_index removed.token_count "capacity"
          ∷ [];
  }

  unfoldable pub evict_one : Call → Store P → Result (Store P)
  unfolding pop_block
  evict_one c s = do
    victim ← P.select_victim s.blocks s.evictor
    (removed, s') ← pop_block victim.block_key s
    evictor ← P.on_remove removed s.evictor
    ok (evicted c removed evictor s')

  -- `while len(self._blocks) >= self._capacity_blocks: self._evict_one(…)`
  unfoldable pub evict_until : ℕ → Call → Store P → Result (Store P)
  unfolding evict_one
  evict_until zero c s = raise out_of_fuel
  evict_until (suc fuel) c s = elim (leb s.capacity_blocks (resident_blocks s)) [
    | Bool.true ↦ do s' ← evict_one c s; evict_until fuel c s'
    | Bool.false ↦ ok s
  ]

  unfoldable pub insert_new_block : Call → String → PrefixBlock → Store P → Result (Store P)
  unfolding emit
  insert_new_block c reason b s = do
    let m = new_meta c b (s.access_seq + 1)
    evictor ← P.on_insert m s.evictor
    ok (
        emit c (write_type s.tier) b reason (record s {
          access_seq = s.access_seq + 1;
          blocks = insert b.block_key m s.blocks;
          evictor = evictor;
        }))

  -- the body of the loop of `materialize` and of `store`
  unfoldable pub write_block : Call → String → PrefixBlock → Store P → Result (Store P)
  unfolding access evict_until insert_new_block
  write_block c reason b s = elim (lookup b.block_key s.blocks) [
    | some m ↦ access b.block_key m c.now_ms 0 s
    | none ↦ do s' ← evict_until (suc (resident_blocks s)) c s; insert_new_block c reason b s'
  ]

  -- `HBMCache.materialize`, `DDRLRUCache.store`
  unfoldable pub write : Call → String → List PrefixBlock → Store P → Result (Store P)
  unfolding write_block
  write c reason [] s = ok s
  write c reason (b ∷ bs) s = do s' ← write_block c reason b s; write c reason bs s'

  unfoldable pub take_events : Store P → List CacheEvent × Store P
  take_events s = (s.events, record s { events = [] })

  -- `__init__`
  unfoldable pub init : CacheTier → ℕ → Result (Store P)
  init tier capacity = do
    reject_if (leb capacity 0)
    ok (record {
      tier = tier;
      capacity_blocks = capacity;
      evictor = P.start;
      blocks = [];
      events = [];
      access_seq = 0;
    })
