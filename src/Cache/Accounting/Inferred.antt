-- ===== src/Cache/Accounting/Inferred.antt =====
-- The block size that is inferred where a request has no conversion.
use infer_twin.Base.{
  ◌⊎◌, All-imp, max, subst, sym, ℕ, ◌+◌, ◌*◌, ◌≤◌, ◌<◌, true, List, [], ◌∷◌, ◌++◌, arith, ◌≡◌, refl,
  Bool-cases, inl, inr, ltb, All,
}
use infer_twin.Cache.Accounting.{largest_count, infer_effective_block_size}
use infer_twin.Cache.Conversion.{CacheBlockConversionResult, conversion_supported}
use infer_twin.Cache.Results.{PrefixLookupResult}
use infer_twin.Request.Block.{PrefixBlock}

-- Some block has this many tokens.
abbrev pub Attained : ℕ → List PrefixBlock → Type 0
Attained n [] = ⊥
Attained n (b ∷ bs) = (b.token_count ≡ n) ⊎ Attained n bs

-- The most tokens of a block.
pub record IsLargest (n : ℕ) (bs : List PrefixBlock) : Type 0 where
  pub positive : 0 < n
  pub bound : All (λ b. b.token_count ≤ n) bs
  pub attained : Attained n bs

-- The conversion that stands in where a request has none: blocks of the largest size that was looked up,
-- or of the whole prompt where no block has tokens, as many as are full before the last token.
pub record Inferred (r : PrefixLookupResult) (prompt_tokens : ℕ) (c : CacheBlockConversionResult)
    : Type 0 where
  pub size :
      IsLargest c.effective_block_size (r.hbm_hit_blocks ++ (r.ddr_hit_blocks ++ r.miss_blocks))
      ⊎ (All (λ b. b.token_count ≡ 0) (r.hbm_hit_blocks ++ (r.ddr_hit_blocks ++ r.miss_blocks))
          × (c.effective_block_size ≡ max prompt_tokens 1))
  pub most : c.max_cache_hit_length < (c.max_matchable_blocks + 1) * c.effective_block_size
  pub no_drop : c.speculative_drop_blocks ≡ 0
  pub is_supported : conversion_supported c ≡ true

largest_count-bound : (bs : List PrefixBlock) → All (λ b. b.token_count ≤ largest_count bs) bs
unfolding largest_count
largest_count-bound [] = tt
largest_count-bound (b ∷ bs) =
    (omega arith, All-imp _ _ bs (λ x le. omega (arith, le)) (largest_count-bound bs))

largest_count-Attained :
    (bs : List PrefixBlock) → 0 < largest_count bs → Attained (largest_count bs) bs
unfolding largest_count
largest_count-Attained [] h = absurd (omega (arith, h))
largest_count-Attained (b ∷ bs) h = elim (Bool-cases (ltb b.token_count (largest_count bs))) [
  | inl later ↦
      let e : max b.token_count (largest_count bs) ≡ largest_count bs = ground arith in
      inr (subst (λ n. Attained n bs) (sym e) (largest_count-Attained bs (ground arith)))
  | inr here ↦ inl (ground arith)
]

pub inferred_size :
    (r : PrefixLookupResult) (prompt_tokens : ℕ)
    → let n = infer_effective_block_size r prompt_tokens in
      let bs = r.hbm_hit_blocks ++ (r.ddr_hit_blocks ++ r.miss_blocks) in
      IsLargest n bs ⊎ (All (λ b. b.token_count ≡ 0) bs × (n ≡ max prompt_tokens 1))
unfolding infer_effective_block_size
inferred_size r prompt_tokens =
    let bs = r.hbm_hit_blocks ++ (r.ddr_hit_blocks ++ r.miss_blocks) in
    elim (Bool-cases (ltb 0 (largest_count bs))) [
      | inl some_tokens ↦
          let positive : 0 < largest_count bs = ground arith in
          rw some_tokens (
            inl (record {
              positive = positive;
              bound = largest_count-bound bs;
              attained = largest_count-Attained bs positive;
            }))
      | inr no_tokens ↦
          rw no_tokens
            (inr (All-imp _ _ bs (λ x le. ground (arith, le)) (largest_count-bound bs), refl))
    ]
