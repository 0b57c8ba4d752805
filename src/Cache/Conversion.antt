-- ===== src/Cache/Conversion.antt =====
-- src/infertwin/cache/cache_block_conversion.py: from matched blocks to cached tokens.
pub mod Laws
use infer_twin.Base.{
  ℕ, ◌-◌, ◌*◌, ◌/◌, Bool, Option, none, some, Result, ok, raise, zero_division_error, ◌>>=◌,
  if◌then◌else◌, ◌==◌, min,
}
use infer_twin.Cache.BlockSize.{BlockSizeResolution, UnsupportedReason, supported, is_none}

pub record CacheBlockConversionInput : Type 0 where
  pub prompt_tokens : ℕ
  pub block_size : BlockSizeResolution
  pub matched_blocks : Option ℕ
  pub speculative_drop_blocks : ℕ

pub record CacheBlockConversionResult : Type 0 where
  pub requested_block_size : ℕ
  pub runtime_block_size : ℕ
  pub effective_block_size : ℕ
  pub max_cache_hit_length : ℕ
  pub max_matchable_blocks : ℕ
  pub matched_blocks : ℕ
  pub speculative_drop_blocks : ℕ
  pub cached_blocks : ℕ
  pub cached_tokens : ℕ
  pub unsupported_reason : Option UnsupportedReason

abbrev pub conversion_supported : CacheBlockConversionResult → Bool
conversion_supported r = is_none r.unsupported_reason

-- `a // b`
abbrev pub floor_div : ℕ → ℕ → Result ℕ
floor_div a b = if b == 0 then raise zero_division_error else ok (a / b)

-- `_base_result`, once the division is made; `max(n - 1, 0)` is the subtraction of natural numbers
abbrev pub base_of : CacheBlockConversionInput → ℕ → CacheBlockConversionResult
base_of c matchable = record {
  requested_block_size = c.block_size.requested_block_size;
  runtime_block_size = c.block_size.runtime_block_size;
  effective_block_size = c.block_size.effective_block_size;
  max_cache_hit_length = c.prompt_tokens - 1;
  max_matchable_blocks = matchable;
  matched_blocks = 0;
  speculative_drop_blocks = c.speculative_drop_blocks;
  cached_blocks = 0;
  cached_tokens = 0;
  unsupported_reason = none;
}

unfoldable pub base_result : CacheBlockConversionInput → Result CacheBlockConversionResult
base_result c = do
  matchable ← floor_div (c.prompt_tokens - 1) c.block_size.effective_block_size
  ok (base_of c matchable)

abbrev pub or_given : Option ℕ → ℕ → ℕ
or_given none d = d
or_given (some n) d = n

-- the number of matched blocks, bounded by what can be matched
abbrev pub matched_of : CacheBlockConversionInput → ℕ → ℕ
matched_of c matchable = min (or_given c.matched_blocks matchable) matchable

-- `calculate`, behind the base result
unfoldable pub converted :
    CacheBlockConversionInput → CacheBlockConversionResult → CacheBlockConversionResult
converted c base =
    if supported c.block_size
    then record base {
      matched_blocks = matched_of c base.max_matchable_blocks;
      cached_blocks = matched_of c base.max_matchable_blocks - c.speculative_drop_blocks;
      cached_tokens =
          (matched_of c base.max_matchable_blocks - c.speculative_drop_blocks)
          * c.block_size.effective_block_size;
    }
    else record base { unsupported_reason = c.block_size.unsupported_reason }

-- `CacheBlockConversionPolicy.calculate`, of numbers that are not negative
unfoldable pub calculate : CacheBlockConversionInput → Result CacheBlockConversionResult
unfolding base_result converted
calculate c = do base ← base_result c; ok (converted c base)
