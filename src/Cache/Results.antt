-- ===== src/Cache/Results.antt =====
-- src/infertwin/cache/results.py: what a prefix lookup returns.
use infer_twin.Base.{ℕ, List, ◌+◌}
use infer_twin.Request.Block.{PrefixBlock, tokens}

pub record PrefixLookupResult : Type 0 where
  pub hbm_hit_blocks : List PrefixBlock
  pub ddr_hit_blocks : List PrefixBlock
  pub miss_blocks : List PrefixBlock

abbrev pub hbm_hit_tokens : PrefixLookupResult → ℕ
hbm_hit_tokens r = tokens r.hbm_hit_blocks

abbrev pub ddr_hit_tokens : PrefixLookupResult → ℕ
ddr_hit_tokens r = tokens r.ddr_hit_blocks

abbrev pub miss_tokens : PrefixLookupResult → ℕ
miss_tokens r = tokens r.miss_blocks

abbrev pub effective_hit_tokens : PrefixLookupResult → ℕ
effective_hit_tokens r = hbm_hit_tokens r + ddr_hit_tokens r
