-- ===== src/Cache/Conversion/Laws.antt =====
-- The bound on cached tokens: full blocks only, and never the whole prompt.
use infer_twin.Base.{
  ◌+◌, ◌⊎◌, none, some, ltb, ℕ, ◌-◌, ◌*◌, ◌/◌, ◌≤◌, ◌<◌, true, false, ok, arith, ◌≡◌, refl,
  Bool-cases, inl, inr,
}
use infer_twin.Cache.BlockSize.{supported}
use infer_twin.Cache.Conversion.{
  CacheBlockConversionInput, CacheBlockConversionResult, calculate, base_result, base_of,
  matched_of, converted,
}
use native.Mathlib.Nat.{div-mul-le_self, div-add-mod, mod-lt, le_trans, mul-le-mul_right, sub-le}

-- What the accounting of a prompt relies on in its conversion.
pub record Bounds (prompt_tokens : ℕ) (r : CacheBlockConversionResult) : Type 0 where
  pub positive : 0 < r.effective_block_size
  pub longest : r.max_cache_hit_length ≡ prompt_tokens - 1
  pub matchable : r.max_matchable_blocks * r.effective_block_size ≤ r.max_cache_hit_length

-- What a supported conversion promises of its numbers. The matched blocks are those that were stated, or
-- all that can be matched, and no more than that.
pub record Cached (c : CacheBlockConversionInput) (r : CacheBlockConversionResult) : Type 0 where
  pub size : r.effective_block_size ≡ c.block_size.effective_block_size
  -- as many full blocks as there are before the last token
  pub most : r.max_cache_hit_length < (r.max_matchable_blocks + 1) * r.effective_block_size
  pub all_matched : c.matched_blocks ≡ none → r.matched_blocks ≡ r.max_matchable_blocks
  pub stated :
      (n : ℕ)
      → c.matched_blocks ≡ some n
      → ((n ≤ r.max_matchable_blocks) × (r.matched_blocks ≡ n))
        ⊎ ((r.max_matchable_blocks < n) × (r.matched_blocks ≡ r.max_matchable_blocks))
  pub dropped : r.cached_blocks ≡ r.matched_blocks - c.speculative_drop_blocks
  pub matched : r.matched_blocks ≤ r.max_matchable_blocks
  pub full : r.cached_tokens ≡ r.cached_blocks * r.effective_block_size
  pub partial : 0 < c.prompt_tokens → r.cached_tokens < c.prompt_tokens

abbrev matchable_of : CacheBlockConversionInput → ℕ
matchable_of c = (c.prompt_tokens - 1) / c.block_size.effective_block_size

module _ (c : CacheBlockConversionInput) (h : 0 < c.block_size.effective_block_size) where
  matchable-le : matchable_of c * c.block_size.effective_block_size ≤ c.prompt_tokens - 1
  matchable-le = div-mul-le_self (c.prompt_tokens - 1) c.block_size.effective_block_size

  matched-le : matched_of c (matchable_of c) ≤ matchable_of c
  matched-le = omega arith

  matchable-most : c.prompt_tokens - 1 < (matchable_of c + 1) * c.block_size.effective_block_size
  matchable-most =
      let size = c.block_size.effective_block_size in
      omega (arith, div-add-mod (c.prompt_tokens - 1) size, mod-lt (c.prompt_tokens - 1) h)

  matched_none : c.matched_blocks ≡ none → matched_of c (matchable_of c) ≡ matchable_of c
  matched_none e = rw e (omega arith)

  matched_some :
      (n : ℕ)
      → c.matched_blocks ≡ some n
      → ((n ≤ matchable_of c) × (matched_of c (matchable_of c) ≡ n))
        ⊎ ((matchable_of c < n) × (matched_of c (matchable_of c) ≡ matchable_of c))
  matched_some n e = rw e (elim (Bool-cases (ltb (matchable_of c) n)) [
    | inl over ↦ inr (ground arith, ground arith)
    | inr within ↦ inl (ground arith, ground arith)
  ])

  cached-le :
      (matched_of c (matchable_of c) - c.speculative_drop_blocks)
        * c.block_size.effective_block_size
      ≤ c.prompt_tokens - 1
  cached-le =
      le_trans
        (mul-le-mul_right c.block_size.effective_block_size
          (le_trans (sub-le (matched_of c (matchable_of c)) c.speculative_drop_blocks) matched-le))
        matchable-le

  supported_case :
      supported c.block_size ≡ true
      → (Bounds c.prompt_tokens (converted c (base_of c (matchable_of c))))
        × ((converted c (base_of c (matchable_of c))).unsupported_reason
            ≡ c.block_size.unsupported_reason)
        × Cached c (converted c (base_of c (matchable_of c)))
  unfolding converted
  supported_case e = rw e (
    record { positive = h; longest = refl; matchable = matchable-le },
    ground arith,
    record {
      size = refl;
      most = matchable-most;
      all_matched = matched_none;
      stated = matched_some;
      dropped = refl;
      matched = matched-le;
      full = refl;
      partial = λ some_tokens. omega (arith, cached-le);
    },
  )

  unsupported_case :
      supported c.block_size ≡ false
      → (Bounds c.prompt_tokens (converted c (base_of c (matchable_of c))))
        × ((converted c (base_of c (matchable_of c))).unsupported_reason
            ≡ c.block_size.unsupported_reason)
  unfolding converted
  unsupported_case e =
      rw e (record { positive = h; longest = refl; matchable = matchable-le }, refl)

-- A conversion for a positive block size raises nothing. Its result keeps the support of the block
-- size and is within the bounds; where it is supported, its numbers are those that `Cached` states.
pub calculate-Bounds :
    (c : CacheBlockConversionInput)
    → 0 < c.block_size.effective_block_size
    → (r : CacheBlockConversionResult) × (calculate c ≡ ok r)
      × Bounds c.prompt_tokens r
      × (r.unsupported_reason ≡ c.block_size.unsupported_reason)
      × (supported c.block_size ≡ true → Cached c r)
unfolding calculate
calculate-Bounds c h =
    let total : base_result c ≡ ok (base_of c (matchable_of c)) =
      unfold base_result in ground arith in
    elim (Bool-cases (supported c.block_size)) [
      | inl e ↦
          let (bounds, reason, cached) = supported_case c h e in
          (converted c (base_of c (matchable_of c)), rw total, bounds, reason, λ _. cached)
      | inr e ↦
          let (bounds, reason) = unsupported_case c h e in
          (converted c (base_of c (matchable_of c)), rw total, bounds, reason, λ e'. cc)
    ]

-- A conversion for a positive block size that is supported raises nothing. As many blocks can be matched
-- as are full before the last token; matched are all of these, or the number that was stated if it is
-- smaller; the cached tokens are full blocks, as many as were matched less those dropped, and fewer
-- tokens than a prompt that is not empty.
pub calculate-Cached :
    (c : CacheBlockConversionInput)
    → 0 < c.block_size.effective_block_size
    → supported c.block_size ≡ true
    → (r : CacheBlockConversionResult) × (calculate c ≡ ok r)
      × Bounds c.prompt_tokens r
      × Cached c r
calculate-Cached c h e =
    let (r, total, bounds, reason, cached) = calculate-Bounds c h in (r, total, bounds, cached e)
