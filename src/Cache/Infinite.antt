-- ===== src/Cache/Infinite.antt =====
-- src/infertwin/cache/infinite_hbm.py: the cache of the ideal hit simulation, which evicts nothing.
pub mod Laws
pub mod Bound
use infer_twin.Base.Dict.{contains, keys, lookup, insert}
use infer_twin.Base.{ℕ, ◌+◌, String, Bool, List, [], ◌∷◌, Option, none, some, length, drop}
use infer_twin.Cache.Events.{CacheEvent}
use infer_twin.Cache.Results.{PrefixLookupResult}
use infer_twin.Request.Block.{PrefixBlock}

-- `CacheBlockMeta`
pub record CacheBlockMeta : Type 0 where
  pub block_key : String
  pub block_index : ℕ
  pub token_count : ℕ
  pub size_bytes : ℕ
  pub created_time_ms : ℕ
  pub last_access_time_ms : ℕ
  pub hit_count : ℕ
  pub refcount : ℕ

-- `InfiniteHBMCache`: its one field, `_blocks`.
pub record InfiniteCache : Type 0 where
  pub blocks : List (String × CacheBlockMeta)

unfoldable pub init : InfiniteCache
init = record { blocks = [] }

unfoldable pub resident_blocks : InfiniteCache → ℕ
resident_blocks s = length s.blocks

unfoldable pub holds : InfiniteCache → String → Bool
holds s key = contains key (keys s.blocks)

-- the loop of `lookup_prefix`
unfoldable pub lookup_hits : ℕ → List PrefixBlock → InfiniteCache → List PrefixBlock × InfiniteCache
lookup_hits now [] s = ([], s)
lookup_hits now (b ∷ bs) s = elim (lookup b.block_key s.blocks) [
  | none ↦ ([], s)
  | some m ↦
      let m' : CacheBlockMeta = record m {
        hit_count = m.hit_count + 1;
        last_access_time_ms = now;
      } in
      let (hits, s') = lookup_hits now bs (record s { blocks = insert b.block_key m' s.blocks }) in
      (b ∷ hits, s')
]

unfoldable pub lookup_prefix :
    ℕ → List PrefixBlock → InfiniteCache → PrefixLookupResult × InfiniteCache
unfolding lookup_hits
lookup_prefix now blocks s =
    let (hits, s') = lookup_hits now blocks s in
    (
      record {
        hbm_hit_blocks = hits;
        ddr_hit_blocks = [];
        miss_blocks = drop (length hits) blocks;
      },
      s',
    )

abbrev pub default_meta : ℕ → PrefixBlock → CacheBlockMeta
default_meta now b = record {
  block_key = b.block_key;
  block_index = b.block_index;
  token_count = b.token_count;
  size_bytes = b.size_bytes;
  created_time_ms = now;
  last_access_time_ms = now;
  hit_count = 0;
  refcount = 0;
}

-- `self._blocks.setdefault(key, …)`
unfoldable pub set_default : ℕ → PrefixBlock → InfiniteCache → InfiniteCache
set_default now b s = elim (lookup b.block_key s.blocks) [
  | some m ↦ s
  | none ↦ record s { blocks = insert b.block_key (default_meta now b) s.blocks }
]

unfoldable pub materialize : ℕ → List PrefixBlock → InfiniteCache → InfiniteCache
unfolding set_default
materialize now [] s = s
materialize now (b ∷ bs) s = materialize now bs (set_default now b s)

unfoldable pub take_events : InfiniteCache → List CacheEvent
take_events s = []
