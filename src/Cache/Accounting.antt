-- ===== src/Cache/Accounting.antt =====
-- src/infertwin/cache/cached_token_accounting.py: the cached tokens of a raw prefix lookup.
pub mod Inferred
pub mod Laws
use infer_twin.Base.{
  ℕ, suc, ◌+◌, ◌-◌, ◌*◌, Bool, List, [], ◌∷◌, ◌++◌, Option, none, some, Result, ok, raise,
  value_error, reject_if, ◌>>=◌, ◌>>◌, if◌then◌else◌, leb, ltb, ◌==◌, not, min, max,
}
use infer_twin.Cache.Conversion.{CacheBlockConversionResult, conversion_supported, floor_div}
use infer_twin.Cache.Results.{PrefixLookupResult, hbm_hit_tokens, ddr_hit_tokens, miss_tokens}
use infer_twin.Request.Block.{PrefixBlock}

pub record AccountedLookupResult : Type 0 where
  pub hbm_hit_tokens : ℕ
  pub ddr_hit_tokens : ℕ
  pub miss_tokens : ℕ
  pub hbm_hit_blocks : List PrefixBlock
  pub ddr_hit_blocks : List PrefixBlock
  pub materialization_blocks : List PrefixBlock
  pub raw_hbm_hit_tokens : ℕ
  pub raw_ddr_hit_tokens : ℕ
  pub raw_miss_tokens : ℕ
  pub cached_token_cap : ℕ

-- the loop of `_count_matchable_full_blocks`, with its `count` and `tokens`
unfoldable pub count_matchable : (size longest count tokens : ℕ) → List PrefixBlock → ℕ
count_matchable size longest count tokens [] = count
count_matchable size longest count tokens (b ∷ bs) =
    let rest = count_matchable size longest (count + 1) (tokens + b.token_count) bs in
    if not (b.token_count == size)
    then count
    else if ltb longest (tokens + b.token_count)
    then count
    else rest

-- the loop of `_take_accounted_blocks`: the blocks selected from here on, and the tokens
unfoldable pub take_loop : (budget size tokens : ℕ) → List PrefixBlock → List PrefixBlock × ℕ
take_loop budget size tokens [] = ([], tokens)
take_loop budget size tokens (b ∷ bs) =
    let rest = take_loop budget size (tokens + b.token_count) bs in
    if not (b.token_count == size)
    then ([], tokens)
    else if ltb budget (tokens + b.token_count)
    then ([], tokens)
    else (b ∷ rest.0, rest.1)

-- `_take_accounted_blocks`
unfoldable pub take_accounted_blocks : List PrefixBlock → (budget size : ℕ) → List PrefixBlock × ℕ
unfolding take_loop
take_accounted_blocks bs budget size = if leb budget 0 then ([], 0) else take_loop budget size 0 bs

-- `max` of the positive token counts, where there is one
unfoldable pub largest_count : List PrefixBlock → ℕ
largest_count [] = 0
largest_count (b ∷ bs) = max b.token_count (largest_count bs)

-- `_infer_effective_block_size`
unfoldable pub infer_effective_block_size : PrefixLookupResult → ℕ → ℕ
unfolding largest_count
infer_effective_block_size r prompt_tokens =
    let largest = largest_count (r.hbm_hit_blocks ++ (r.ddr_hit_blocks ++ r.miss_blocks)) in
    if ltb 0 largest then largest else max prompt_tokens 1

-- the record that `_legacy_conversion_result` returns
abbrev pub legacy_conversion : (size prompt_tokens matchable : ℕ) → CacheBlockConversionResult
legacy_conversion size prompt_tokens matchable = record {
  requested_block_size = size;
  runtime_block_size = size;
  effective_block_size = size;
  max_cache_hit_length = prompt_tokens - 1;
  max_matchable_blocks = matchable;
  matched_blocks = matchable;
  speculative_drop_blocks = 0;
  cached_blocks = matchable;
  cached_tokens = matchable * size;
  unsupported_reason = none;
}

-- `_legacy_conversion_result`
unfoldable pub legacy_conversion_result : PrefixLookupResult → ℕ → Result CacheBlockConversionResult
legacy_conversion_result r prompt_tokens = do
  let size = infer_effective_block_size r prompt_tokens
  matchable ← floor_div (prompt_tokens - 1) size
  ok (legacy_conversion size prompt_tokens matchable)

-- `block_conversion or _legacy_conversion_result(…)`
unfoldable pub conversion_of :
    PrefixLookupResult → ℕ → Option CacheBlockConversionResult → Result CacheBlockConversionResult
unfolding legacy_conversion_result
conversion_of r prompt_tokens none = legacy_conversion_result r prompt_tokens
conversion_of r prompt_tokens (some c) = ok c

-- the cached blocks, of which `cached_token_cap` is the number of tokens
unfoldable pub cached_blocks : PrefixLookupResult → CacheBlockConversionResult → ℕ
unfolding count_matchable
cached_blocks r c =
    let raw =
      count_matchable c.effective_block_size c.max_cache_hit_length 0 0
        (r.hbm_hit_blocks ++ r.ddr_hit_blocks) in
    min raw c.max_matchable_blocks - c.speculative_drop_blocks

-- the result, from the parts that were taken of the two tiers' hits
abbrev pub accounted_result :
    PrefixLookupResult
    → (prompt_tokens cap : ℕ) → (hbm ddr : List PrefixBlock × ℕ) → AccountedLookupResult
accounted_result r prompt_tokens cap hbm ddr = record {
  hbm_hit_tokens = hbm.1;
  ddr_hit_tokens = ddr.1;
  miss_tokens = prompt_tokens - hbm.1 - ddr.1;
  hbm_hit_blocks = hbm.0;
  ddr_hit_blocks = ddr.0;
  materialization_blocks = r.miss_blocks;
  raw_hbm_hit_tokens = hbm_hit_tokens r;
  raw_ddr_hit_tokens = ddr_hit_tokens r;
  raw_miss_tokens = miss_tokens r;
  cached_token_cap = cap;
}

-- behind the conversion; the cap is at least the HBM tokens, so that the subtraction from it is exact
unfoldable pub account :
    PrefixLookupResult → ℕ → CacheBlockConversionResult → Result AccountedLookupResult
unfolding cached_blocks take_accounted_blocks
account r prompt_tokens c = do
  let size = c.effective_block_size
  let cap = cached_blocks r c * size
  let hbm = take_accounted_blocks r.hbm_hit_blocks cap size
  let ddr = take_accounted_blocks r.ddr_hit_blocks (cap - hbm.1) size
  reject_if (ltb prompt_tokens (hbm.1 + ddr.1))
  ok (accounted_result r prompt_tokens cap hbm ddr)

-- `account_prefix_lookup`
unfoldable pub account_prefix_lookup :
    PrefixLookupResult → ℕ → Option CacheBlockConversionResult → Result AccountedLookupResult
unfolding conversion_of account
account_prefix_lookup r prompt_tokens conversion = do
  c ← conversion_of r prompt_tokens conversion
  reject_if (not (conversion_supported c))
  account r prompt_tokens c
