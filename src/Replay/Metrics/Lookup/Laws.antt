-- ===== src/Replay/Metrics/Lookup/Laws.antt =====
-- What a lookup counts is accepted by the request's state.
use infer_twin.Base.{
  ℕ, ◌+◌, ◌≤◌, true, false, Option, none, some, Result, ok, ◌≡◌, refl, arith, ltb, ◌||◌, min, inl,
  inr,
}
use infer_twin.Cache.Accounting.Laws.{account_prefix_lookup-Accounted, account_prefix_lookup-legacy}
use infer_twin.Cache.Accounting.{AccountedLookupResult, account_prefix_lookup}
use infer_twin.Cache.Conversion.Laws.{Bounds}
use infer_twin.Cache.Conversion.{CacheBlockConversionResult, conversion_supported}
use infer_twin.Cache.Results.{PrefixLookupResult}
use infer_twin.Replay.Metrics.Lookup.{
  LookupMetrics, of_accounted, from_result, effective_hit_tokens, record_lookup,
}
use infer_twin.Request.Simulation.{SimulationRequest}
use infer_twin.Scheduler.State.Laws.{
  IsReady, LookedUp, refused, accepted, remaining, set_cache_lookup-LookedUp,
}
use infer_twin.Scheduler.State.{RequestState, has_pending_kv_load}

-- A supported conversion within the bounds of the prompt, or none.
abbrev pub Convertible : ℕ → Option CacheBlockConversionResult → Type 0
Convertible prompt_tokens none = Unit
Convertible prompt_tokens (some c) = Bounds prompt_tokens c × (conversion_supported c ≡ true)

-- The metrics and the state after a lookup.
pub record Recorded (lookup : PrefixLookupResult) (request : SimulationRequest) (m : LookupMetrics)
    (s' : RequestState) : Type 0 where
  pub conserved : effective_hit_tokens m + m.miss_tokens ≡ request.prompt_tokens
  pub capped : effective_hit_tokens m ≡ m.cached_token_cap
  pub to_write : m.materialization_blocks ≡ lookup.miss_blocks
  pub ready : IsReady s'
  pub left : remaining s' ≡ m.miss_tokens
  -- a prompt that is not empty is never all cached
  pub recomputed : min 1 request.prompt_tokens ≤ remaining s'
  pub load : has_pending_kv_load s' ≡ ok (ltb 0 m.ddr_hit_tokens || ltb 0 m.ddr_hit_bytes)

-- Accounting with either kind of conversion, as far as the state relies on it.
accounted_lem :
    (lookup : PrefixLookupResult) (prompt_tokens : ℕ)
    (conversion : Option CacheBlockConversionResult)
    → Convertible prompt_tokens conversion
    → (a : AccountedLookupResult) × (account_prefix_lookup lookup prompt_tokens conversion ≡ ok a)
      × (a.hbm_hit_tokens + a.ddr_hit_tokens + a.miss_tokens ≡ prompt_tokens)
      × (a.hbm_hit_tokens + a.ddr_hit_tokens ≡ a.cached_token_cap)
      × (min 1 prompt_tokens ≤ a.miss_tokens)
      × (a.materialization_blocks ≡ lookup.miss_blocks)
accounted_lem lookup prompt_tokens none h =
    let (c, a, e, same, bounds, inferred, good) =
      account_prefix_lookup-legacy lookup prompt_tokens in
    (a, e, good.conserved, good.exact, good.recomputed, good.materialized)
accounted_lem lookup prompt_tokens (some c) (h, supported) =
    let (a, e, good) = account_prefix_lookup-Accounted lookup prompt_tokens c h supported in
    (a, e, good.conserved, good.exact, good.recomputed, good.materialized)

-- the state of a request that was not looked up accepts counts that make up its prompt
set_ok :
    {s : RequestState} {cached miss load_tokens bytes : ℕ} {outcome : Result RequestState}
    → LookedUp s cached miss load_tokens bytes outcome
    → s.cache_lookup_done ≡ false
    → cached + miss ≡ s.prompt_tokens
    → (s' : RequestState) × (outcome ≡ ok s')
      × IsReady s'
      × (remaining s' ≡ miss)
      × (has_pending_kv_load s' ≡ ok (ltb 0 load_tokens || ltb 0 bytes))
set_ok (refused (inl done)) new sum = cc
set_ok (refused (inr differ)) new sum = absurd (differ sum)
set_ok (accepted {r' = s'} unseen counted ready left load) new sum = (s', refl, ready, left, load)

-- For a state that was not looked up yet and a request with no conversion, or a supported one that is within
-- the bounds of its prompt, the lookup is counted and recorded without an exception: hits and misses make up the prompt, the state is
-- ready and is left with the missing tokens, at least one of a prompt that is not empty, and a load
-- is pending exactly if DDR gave tokens or bytes.
pub record_lookup-Recorded :
    (lookup : PrefixLookupResult) (request : SimulationRequest) (s : RequestState)
    → Convertible request.prompt_tokens request.block_conversion_result
    → s.cache_lookup_done ≡ false
    → s.prompt_tokens ≡ request.prompt_tokens
    → (m : LookupMetrics) × (s' : RequestState) × (record_lookup lookup request s ≡ ok (m, s'))
      × Recorded lookup request m s'
unfolding record_lookup from_result
record_lookup-Recorded lookup request s convertible new same =
    let (a, e, conserved, capped, recomputed, written) =
      accounted_lem lookup request.prompt_tokens request.block_conversion_result convertible in
    let m = of_accounted a in
    let (s', done, ready, left, load) =
      set_ok
        (set_cache_lookup-LookedUp s (effective_hit_tokens m) m.miss_tokens m.ddr_hit_tokens
          m.ddr_hit_bytes)
        new (omega (arith, conserved, same)) in
    (
      m,
      s',
      rw (e, done) refl,
      record {
        conserved = conserved;
        capped = capped;
        to_write = written;
        ready = ready;
        left = left;
        recomputed = omega (arith, recomputed, left);
        load = load;
      },
    )
