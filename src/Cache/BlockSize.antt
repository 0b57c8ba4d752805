-- ===== src/Cache/BlockSize.antt =====
-- src/infertwin/cache/block_size.py: from the requested block size to the effective one.
pub mod Laws
use infer_twin.Base.Gcd.{lcm}
use infer_twin.Base.{
  ℕ, zero, suc, ◌+◌, ◌*◌, ◌/◌, ◌%◌, String, Bool, true, false, ◌&&◌, List, [], ◌∷◌, Option, none,
  some, Result, ok, raise, value_error, reject_if, ◌>>=◌, ◌>>◌, if◌then◌else◌, leb, ltb, ◌==◌,
}

-- The names of the cache families, and any other text.
pub data CacheFamily : Type 0 where
  full_attention sliding_window mamba hybrid : CacheFamily
  other_family : String → CacheFamily

-- Why a configuration is not supported, in place of the message, or the message that was read back.
pub data UnsupportedReason : Type 0 where
  unsupported_family context_parallel hybrid_without_groups : UnsupportedReason
  stated : String → UnsupportedReason

pub record BlockSizeInput : Type 0 where
  pub requested_block_size : ℕ
  pub runtime_block_size : Option ℕ
  pub prefill_context_parallel_size : ℕ
  pub decode_context_parallel_size : ℕ
  pub cache_family : CacheFamily
  pub hybrid_group_block_sizes : List ℕ

pub record BlockSizeResolution : Type 0 where
  pub requested_block_size : ℕ
  pub runtime_block_size : ℕ
  pub effective_block_size : ℕ
  pub prefill_context_parallel_size : ℕ
  pub decode_context_parallel_size : ℕ
  pub cache_family : CacheFamily
  pub hybrid_group_block_sizes : List ℕ
  pub unsupported_reason : Option UnsupportedReason

abbrev pub is_none {ℓ} : {A : Type ℓ} → Option A → Bool
is_none none = true
is_none (some x) = false

abbrev pub supported : BlockSizeResolution → Bool
supported r = is_none r.unsupported_reason

-- `a or b`, of an optional number: `None` and 0 are false.
abbrev pub or_number : Option ℕ → ℕ → ℕ
or_number none d = d
or_number (some zero) d = d
or_number (some (suc n)) d = suc n

abbrev pub is_nil : List ℕ → Bool
is_nil [] = true
is_nil (x ∷ xs) = false

-- `_require_positive_int_tuple`
require_positive_all : List ℕ → Result (Unit {0})
require_positive_all [] = ok tt
require_positive_all (n ∷ ns) = reject_if (leb n 0) >> require_positive_all ns

-- `_CP_UNSUPPORTED_CACHE_FAMILIES`
abbrev context_parallel_unsupported : CacheFamily → Bool
context_parallel_unsupported sliding_window = true
context_parallel_unsupported mamba = true
context_parallel_unsupported hybrid = true
context_parallel_unsupported _ = false

-- `lcm(runtime_block_size, *config.hybrid_group_block_sizes)`
unfoldable pub lcm_all : ℕ → List ℕ → ℕ
lcm_all a [] = a
lcm_all a (n ∷ ns) = lcm_all (lcm a n) ns

abbrev pub resolution :
    BlockSizeInput → (runtime effective : ℕ) → Option UnsupportedReason → BlockSizeResolution
resolution c runtime effective reason = record {
  requested_block_size = c.requested_block_size;
  runtime_block_size = runtime;
  effective_block_size = effective;
  prefill_context_parallel_size = c.prefill_context_parallel_size;
  decode_context_parallel_size = c.decode_context_parallel_size;
  cache_family = c.cache_family;
  hybrid_group_block_sizes = c.hybrid_group_block_sizes;
  unsupported_reason = reason;
}

-- `_unsupported`
abbrev pub unsupported : BlockSizeInput → ℕ → UnsupportedReason → BlockSizeResolution
unsupported c runtime reason = resolution c runtime runtime (some reason)

abbrev pub context_parallel_factor : BlockSizeInput → ℕ
context_parallel_factor c = c.prefill_context_parallel_size * c.decode_context_parallel_size

abbrev pub runtime_of : BlockSizeInput → ℕ
runtime_of c = or_number c.runtime_block_size c.requested_block_size

-- the groups of a hybrid cache: at least one, each positive
resolve_hybrid : BlockSizeInput → ℕ → Result BlockSizeResolution
unfolding require_positive_all lcm_all
resolve_hybrid c runtime =
    if is_nil c.hybrid_group_block_sizes
    then ok (unsupported c runtime hybrid_without_groups)
    else do
      require_positive_all c.hybrid_group_block_sizes
      ok (resolution c runtime (lcm_all runtime c.hybrid_group_block_sizes) none)

-- the branches on the cache family
resolve_family : BlockSizeInput → ℕ → CacheFamily → Result BlockSizeResolution
unfolding resolve_hybrid
resolve_family c runtime full_attention =
    ok (resolution c runtime (runtime * context_parallel_factor c) none)
resolve_family c runtime hybrid = resolve_hybrid c runtime
resolve_family c runtime sliding_window = ok (resolution c runtime runtime none)
resolve_family c runtime mamba = ok (resolution c runtime runtime none)
resolve_family c runtime (other_family name) = ok (unsupported c runtime unsupported_family)

-- behind the checks that the sizes are positive
resolve_checked : BlockSizeInput → Result BlockSizeResolution
unfolding resolve_family
resolve_checked c =
    if ltb 1 (context_parallel_factor c) && context_parallel_unsupported c.cache_family
    then ok (unsupported c (runtime_of c) context_parallel)
    else resolve_family c (runtime_of c) c.cache_family

-- `BlockSizeResolver.resolve`
unfoldable pub resolve : BlockSizeInput → Result BlockSizeResolution
unfolding resolve_checked
resolve c = do
  reject_if (leb c.requested_block_size 0)
  reject_if (leb (runtime_of c) 0)
  reject_if (leb c.prefill_context_parallel_size 0)
  reject_if (leb c.decode_context_parallel_size 0)
  resolve_checked c
