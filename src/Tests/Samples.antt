-- ===== src/Tests/Samples.antt =====
-- Small caches and blocks.
use infer_twin.Base.Dict.{contains}
use infer_twin.Base.{ℕ, String, List, [], ◌∷◌, arith, refl}
use infer_twin.Cache.Events.{CacheTier, hbm, ddr}
use infer_twin.Cache.Eviction.{BlockMeta, lru}
use infer_twin.Cache.Eviction.Laws.{lru-LawfulPolicy}
use infer_twin.Cache.Infinite.{InfiniteCache}
use infer_twin.Cache.Results.{PrefixLookupResult}
use infer_twin.Cache.Store.{Call, Store}
use infer_twin.Cache.Store.Lookup.{IsValid}
use infer_twin.Cache.Tiered.{TieredCache}
use infer_twin.Cache.Tiered.Laws.{IsValidTiered}
use infer_twin.Request.Block.{PrefixBlock}

abbrev pub block_of : String → ℕ → ℕ → PrefixBlock
block_of key index count = record {
  block_key = key;
  content_hash = key;
  block_index = index;
  token_count = count;
  size_bytes = 0;
}

abbrev pub a : PrefixBlock
a = block_of "a" 0 4

abbrev pub b : PrefixBlock
b = block_of "b" 1 4

abbrev pub d : PrefixBlock
d = block_of "d" 2 3

abbrev pub abd : List PrefixBlock
abd = a ∷ b ∷ d ∷ []

abbrev pub call : Call
call = record {
  now_ms = 5;
  request_id = "r1";
  instance_uuid = "i1";
  hbm_used_blocks = 0;
  hbm_capacity_blocks = 0;
}

abbrev pub meta : BlockMeta
meta = record {
  block_key = "a";
  block_index = 0;
  token_count = 4;
  size_bytes = 0;
  created_time_ms = 1;
  last_access_time_ms = 1;
  last_access_seq = 1;
  hit_count = 0;
  written_by_request_id = "r0";
  instance_uuid = "i1";
}

-- one block, and room for another
abbrev pub with_a : CacheTier → Store lru
with_a tier = record {
  tier = tier;
  capacity_blocks = 2;
  evictor = "a" ∷ [];
  blocks = ("a", meta) ∷ [];
  events = [];
  access_seq = 1;
}

pub with_a-IsValid : (tier : CacheTier) → IsValid lru-LawfulPolicy (with_a tier)
unfolding contains
with_a-IsValid tier = record {
  positive = omega arith;
  bounded = omega arith;
  distinct = (refl, tt);
  keyed = (refl, tt);
  tracked = record { distinct = (refl, tt); same = λ k. refl };
}

abbrev pub tiers : TieredCache lru lru
tiers = record { hbm = with_a hbm; ddr = with_a ddr; events = [] }

-- the DDR tier has room for all blocks, the HBM tier has not
abbrev pub wide_tiers : TieredCache lru lru
wide_tiers = record {
  hbm = with_a hbm;
  ddr = record (with_a ddr) { capacity_blocks = 8 };
  events = [];
}

pub wide_tiers-IsValidTiered : IsValidTiered lru-LawfulPolicy lru-LawfulPolicy wide_tiers
unfolding contains
wide_tiers-IsValidTiered = record {
  hbm_valid = with_a-IsValid hbm;
  ddr_valid = record {
    positive = omega arith;
    bounded = omega arith;
    distinct = (refl, tt);
    keyed = (refl, tt);
    tracked = record { distinct = (refl, tt); same = λ k. refl };
  };
  hbm_class = refl;
  ddr_class = refl;
  hbm_drained = refl;
  ddr_drained = refl;
}

pub tiers-IsValidTiered : IsValidTiered lru-LawfulPolicy lru-LawfulPolicy tiers
tiers-IsValidTiered = record {
  hbm_valid = with_a-IsValid hbm;
  ddr_valid = with_a-IsValid ddr;
  hbm_class = refl;
  ddr_class = refl;
  hbm_drained = refl;
  ddr_drained = refl;
}

abbrev pub infinite : InfiniteCache
infinite = record {
  blocks =
      (
        "a",
        record {
          block_key = "a";
          block_index = 0;
          token_count = 4;
          size_bytes = 0;
          created_time_ms = 1;
          last_access_time_ms = 1;
          hit_count = 0;
          refcount = 0;
        },
      )
      ∷ [];
}

abbrev pub found_ab : PrefixLookupResult
found_ab = record { hbm_hit_blocks = a ∷ []; ddr_hit_blocks = b ∷ []; miss_blocks = d ∷ [] }
