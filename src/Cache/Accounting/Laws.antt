-- ===== src/Cache/Accounting/Laws.antt =====
-- Cached tokens: exactly the full blocks that may count as cached, and never the whole prompt.
use infer_twin.Base.{
  ℕ, zero, suc, ◌+◌, ◌-◌, ◌*◌, ◌/◌, ◌≤◌, ◌<◌, true, false, List, [], ◌∷◌, ◌++◌, none, some, ok,
  arith, ◌≡◌, refl, ap, ◌∙◌, Bool-cases, inl, inr, ==_iff, ltb, leb, ◌==◌, min, All, if◌then◌else◌,
}
use infer_twin.Cache.Accounting.Inferred.{Inferred, inferred_size}
use infer_twin.Cache.Accounting.{
  AccountedLookupResult, count_matchable, take_loop, take_accounted_blocks,
  infer_effective_block_size, legacy_conversion_result, cached_blocks, account, accounted_result,
  legacy_conversion, account_prefix_lookup,
}
use infer_twin.Cache.Conversion.Laws.{Bounds}
use infer_twin.Cache.Conversion.{CacheBlockConversionResult, conversion_supported}
use infer_twin.Cache.Results.{PrefixLookupResult}
use infer_twin.Request.Block.{PrefixBlock, tokens}
use native.Mathlib.Nat.{mul-le-mul_right, div-mul-le_self, div-add-mod, mod-lt, mul-sub, mul_comm}

-- the number of blocks of the full size at the front
pub full_prefix : ℕ → List PrefixBlock → ℕ
full_prefix size [] = 0
full_prefix size (b ∷ bs) = if b.token_count == size then suc (full_prefix size bs) else 0

full_prefix-append-le :
    (size : ℕ) (xs ys : List PrefixBlock)
    → full_prefix size (xs ++ ys) ≤ full_prefix size xs + full_prefix size ys
unfolding full_prefix
full_prefix-append-le size [] ys = omega arith
full_prefix-append-le size (b ∷ xs) ys = ground (arith, full_prefix-append-le size xs ys)

count_matchable-le :
    (size longest count seen : ℕ) (bs : List PrefixBlock)
    → count_matchable size longest count seen bs ≤ count + full_prefix size bs
unfolding count_matchable full_prefix
count_matchable-le size longest count seen [] = omega arith
count_matchable-le size longest count seen (b ∷ bs) =
    ground (arith, count_matchable-le size longest (count + 1) (seen + b.token_count) bs)

-- Among multiples of the size the budget is compared by the multiples.
over_budget : (m k size : ℕ) → 0 < size → ltb (m * size) (k * size + size) ≡ ltb m (k + 1)
over_budget m k size h = elim (Bool-cases (ltb m (k + 1))) [
  | inl over ↦ rw over (ground (arith, mul-le-mul_right {m = m} {n = k} size (below m k over)))
  | inr within ↦
      rw within (ground (arith, mul-le-mul_right {m = k + 1} {n = m} size (above m k within)))
]
  where
    below : (m k : ℕ) → ltb m (k + 1) ≡ true → m ≤ k
    below m k e = ground arith

    above : (m k : ℕ) → ltb m (k + 1) ≡ false → k + 1 ≤ m
    above m k e = ground arith

-- The tokens taken under a budget of `m` blocks, once `k` blocks are taken.
take_loop_lem :
    (size m k : ℕ) (bs : List PrefixBlock)
    → 0 < size
    → k ≤ m
    → (take_loop (m * size) size (k * size) bs).1 ≡ (k + min (m - k) (full_prefix size bs)) * size
unfolding take_loop full_prefix
take_loop_lem size m k [] h le =
    let e : k ≡ k + min (m - k) 0 = omega arith in ap (λ (n : ℕ). n * size) e
take_loop_lem size m k (b ∷ bs) h le = elim (Bool-cases (b.token_count == size)) [
  | inl full ↦
      let next : k * size + size ≡ (k + 1) * size = omega arith in
      let same : b.token_count ≡ size = ground arith in
      elim (Bool-cases (ltb m (k + 1))) [
        | inl over ↦
            let none_left : k ≡ k + min (m - k) (suc (full_prefix size bs)) = ground arith in
            rw (full, same, over_budget m k size h, over) (ap (λ (n : ℕ). n * size) none_left)
        | inr within ↦
            let ih = take_loop_lem size m (k + 1) bs h (ground arith) in
            let count : (k + 1) + min (m - (k + 1)) (full_prefix size bs)
                ≡ k + min (m - k) (suc (full_prefix size bs)) =
              ground arith in
            rw (full, same, over_budget m k size h, within, next)
              (ih ∙ ap (λ (n : ℕ). n * size) count)
      ]
  | inr partial ↦
      let none_left : k ≡ k + min (m - k) 0 = omega arith in
      rw partial (ap (λ (n : ℕ). n * size) none_left)
]

-- The tokens that `_take_accounted_blocks` takes: as many full blocks from the front as the budget
-- allows.
take_accounted-tokens :
    (size m : ℕ) (bs : List PrefixBlock)
    → 0 < size
    → (take_accounted_blocks bs (m * size) size).1 ≡ min m (full_prefix size bs) * size
unfolding take_accounted_blocks
take_accounted-tokens size zero bs h = ground arith
take_accounted-tokens size (suc m) bs h =
    let start : 0 ≡ 0 * size = omega arith in
    let some_budget : leb (suc m * size) 0 ≡ false = ground arith in
    rw (some_budget, start)
      (take_loop_lem size (suc m) 0 bs h (omega arith) ∙ ap (λ (n : ℕ). n * size) (omega arith))

-- The selected blocks have the tokens that are reported, and are blocks of the full size.
take_loop-tokens :
    (budget size seen : ℕ) (bs : List PrefixBlock)
    → ((take_loop budget size seen bs).1 ≡ seen + tokens (take_loop budget size seen bs).0)
      × All (λ b. b.token_count ≡ size) (take_loop budget size seen bs).0
      × ((rest : List PrefixBlock) × ((take_loop budget size seen bs).0 ++ rest ≡ bs))
unfolding take_loop
take_loop-tokens budget size seen [] = (omega arith, tt, ([], refl))
take_loop-tokens budget size seen (b ∷ bs) = elim (Bool-cases (b.token_count == size)) [
  | inl full ↦ elim (Bool-cases (ltb budget (seen + b.token_count))) [
    | inl over ↦ rw (full, over) (omega arith, tt, (b ∷ bs, refl))
    | inr within ↦
        let (count, sizes, left) = take_loop-tokens budget size (seen + b.token_count) bs in
        rw (full, within)
          (
            omega (arith, count),
            ((==_iff b.token_count size).0 full, sizes),
            (left.0, ap (◌∷◌ b) left.1),
          )
  ]
  | inr partial ↦ rw partial (omega arith, tt, (b ∷ bs, refl))
]

-- What is taken is a run of full blocks at the front, and the tokens are theirs.
pub record Taken (size : ℕ) (bs taken : List PrefixBlock) (count : ℕ) : Type 0 where
  pub counted : count ≡ tokens taken
  pub full : All (λ b. b.token_count ≡ size) taken
  pub rest : List PrefixBlock
  pub split : taken ++ rest ≡ bs

take_accounted-Taken :
    (bs : List PrefixBlock) (budget size : ℕ)
    → Taken size bs
        (take_accounted_blocks bs budget size).0
        (take_accounted_blocks bs budget size).1
unfolding take_accounted_blocks
take_accounted-Taken bs budget size = elim (Bool-cases (leb budget 0)) [
  | inl none_left ↦ rw none_left (record { counted = refl; full = tt; rest = bs; split = refl })
  | inr some_left ↦
      let (count, sizes, left) = take_loop-tokens budget size 0 bs in
      rw some_left
        (record { counted = omega (arith, count); full = sizes; rest = left.0; split = left.1 })
]

-- What the accounting of a prompt promises.
pub record Accounted (r : PrefixLookupResult) (prompt_tokens : ℕ) (c : CacheBlockConversionResult)
    (a : AccountedLookupResult) : Type 0 where
  pub capped : a.cached_token_cap ≡ cached_blocks r c * c.effective_block_size
  pub exact : a.hbm_hit_tokens + a.ddr_hit_tokens ≡ a.cached_token_cap
  pub conserved : a.hbm_hit_tokens + a.ddr_hit_tokens + a.miss_tokens ≡ prompt_tokens
  -- some token is missed, of a prompt that has one
  pub recomputed : min 1 prompt_tokens ≤ a.miss_tokens
  pub hbm_taken : Taken c.effective_block_size r.hbm_hit_blocks a.hbm_hit_blocks a.hbm_hit_tokens
  pub ddr_taken : Taken c.effective_block_size r.ddr_hit_blocks a.ddr_hit_blocks a.ddr_hit_tokens
  pub materialized : a.materialization_blocks ≡ r.miss_blocks

module _ (r : PrefixLookupResult) (prompt_tokens : ℕ) (c : CacheBlockConversionResult)
    (h : Bounds prompt_tokens c) where
  abbrev size : ℕ
  size = c.effective_block_size

  abbrev m : ℕ
  m = cached_blocks r c

  m-le_full : m ≤ full_prefix size r.hbm_hit_blocks + full_prefix size r.ddr_hit_blocks
  unfolding cached_blocks
  m-le_full =
      let both = r.hbm_hit_blocks ++ r.ddr_hit_blocks in
      omega (
        arith,
        count_matchable-le size c.max_cache_hit_length 0 0 both,
        full_prefix-append-le size r.hbm_hit_blocks r.ddr_hit_blocks,
      )

  cap-le : m * size ≤ prompt_tokens - 1
  unfolding cached_blocks
  cap-le =
      let below : m ≤ c.max_matchable_blocks = omega arith in
      omega (arith, mul-le-mul_right size below, h.matchable, h.longest)

  abbrev hbm_part : List PrefixBlock × ℕ
  hbm_part = take_accounted_blocks r.hbm_hit_blocks (m * size) size

  abbrev ddr_part : List PrefixBlock × ℕ
  ddr_part = take_accounted_blocks r.ddr_hit_blocks (m * size - hbm_part.1) size

  parts_exact : hbm_part.1 + ddr_part.1 ≡ m * size
  parts_exact =
      let k = min m (full_prefix size r.hbm_hit_blocks) in
      let first = take_accounted-tokens size m r.hbm_hit_blocks h.positive in
      let left : m * size - k * size ≡ (m - k) * size =
        cc (mul-sub size m k, mul_comm (m - k) size, mul_comm m size, mul_comm k size) in
      let second = take_accounted-tokens size (m - k) r.ddr_hit_blocks h.positive in
      let total : k + min (m - k) (full_prefix size r.ddr_hit_blocks) ≡ m =
        omega (arith, m-le_full) in
      rw (first, left, second) (omega (arith, ap (λ (n : ℕ). n * size) total))

  account_lem :
      (a : AccountedLookupResult) × (account r prompt_tokens c ≡ ok a)
      × Accounted r prompt_tokens c a
  unfolding account
  account_lem =
      let within : ltb prompt_tokens (hbm_part.1 + ddr_part.1) ≡ false =
        ground (arith, parts_exact, cap-le) in
      (
        accounted_result r prompt_tokens (m * size) hbm_part ddr_part,
        rw within,
        record {
          capped = refl;
          exact = parts_exact;
          conserved = omega (arith, parts_exact, cap-le);
          recomputed = omega (arith, parts_exact, cap-le);
          hbm_taken = take_accounted-Taken r.hbm_hit_blocks (m * size) size;
          ddr_taken = take_accounted-Taken r.ddr_hit_blocks (m * size - hbm_part.1) size;
          materialized = refl;
        },
      )

-- It is within the bounds.
legacy-Bounds :
    (r : PrefixLookupResult) (prompt_tokens : ℕ)
    → (c : CacheBlockConversionResult) × (legacy_conversion_result r prompt_tokens ≡ ok c)
      × Bounds prompt_tokens c
      × Inferred r prompt_tokens c
unfolding legacy_conversion_result
legacy-Bounds r prompt_tokens =
    let s = infer_effective_block_size r prompt_tokens in
    let positive : 0 < s = unfold infer_effective_block_size in ground arith in
    let nonzero : (s == 0) ≡ false = ground arith in
    (
      legacy_conversion s prompt_tokens ((prompt_tokens - 1) / s),
      rw nonzero,
      record {
        positive = positive;
        longest = refl;
        matchable = div-mul-le_self (prompt_tokens - 1) s;
      },
      record {
        size = inferred_size r prompt_tokens;
        most =
            omega (arith, div-add-mod (prompt_tokens - 1) s, mod-lt (prompt_tokens - 1) positive);
        no_drop = refl;
        is_supported = refl;
      },
    )

-- With a supported conversion within the bounds, accounting raises nothing. The cached tokens are
-- exactly the cap, which is a number of full blocks; with the missed tokens they make the prompt; of
-- a prompt that is not empty some token is always missed. The blocks that count as hits are runs of full blocks at the front of the tiers' raw hits.
pub account_prefix_lookup-Accounted :
    (r : PrefixLookupResult) (prompt_tokens : ℕ) (c : CacheBlockConversionResult)
    → Bounds prompt_tokens c
    → conversion_supported c ≡ true
    → (a : AccountedLookupResult) × (account_prefix_lookup r prompt_tokens (some c) ≡ ok a)
      × Accounted r prompt_tokens c a
unfolding account_prefix_lookup
account_prefix_lookup-Accounted r prompt_tokens c h e =
    let (a, total, good) = account_lem r prompt_tokens c h in (a, rw (e, total), good)

-- Without a conversion accounting raises nothing, and its result is the one for the conversion that is
-- inferred: blocks of the size of the largest block that was looked up (of the whole prompt where no
-- block has tokens), as many as are full before the last token, and none dropped. Exactly the cap is
-- cached, the cached and the missed tokens make the prompt, some token of a prompt that is not empty is
-- missed, and the hits are runs of full blocks at the front of the tiers' raw hits.
pub account_prefix_lookup-legacy :
    (r : PrefixLookupResult) (prompt_tokens : ℕ)
    → (c : CacheBlockConversionResult) × (a : AccountedLookupResult) × (account_prefix_lookup r
          prompt_tokens none
        ≡ ok a)
      × (account_prefix_lookup r prompt_tokens (some c) ≡ ok a)
      × Bounds prompt_tokens c
      × Inferred r prompt_tokens c
      × Accounted r prompt_tokens c a
unfolding account_prefix_lookup
account_prefix_lookup-legacy r prompt_tokens =
    let (c, made, h, inferred) = legacy-Bounds r prompt_tokens in
    let (a, total, good) = account_lem r prompt_tokens c h in
    let e = inferred.is_supported in (c, a, rw (made, e, total), rw (e, total), h, inferred, good)
