-- ===== src/Replay/Metrics/Lookup.antt =====
-- `LookupMetrics` of src/infertwin/replay/metrics.py: the tokens that a request found in the caches.
pub mod Laws
use infer_twin.Base.{ℕ, ◌+◌, List, Result, ok, sum_by, ◌>>=◌}
use infer_twin.Cache.Accounting.{AccountedLookupResult, account_prefix_lookup}
use infer_twin.Cache.Results.{PrefixLookupResult}
use infer_twin.Request.Block.{PrefixBlock}
use infer_twin.Request.Simulation.{SimulationRequest}
use infer_twin.Scheduler.State.{RequestState, set_cache_lookup}

pub record LookupMetrics : Type 0 where
  pub hbm_hit_tokens : ℕ
  pub ddr_hit_tokens : ℕ
  pub ddr_hit_bytes : ℕ
  pub miss_tokens : ℕ
  pub miss_blocks : List PrefixBlock
  pub materialization_blocks : List PrefixBlock
  pub raw_hbm_hit_tokens : ℕ
  pub raw_ddr_hit_tokens : ℕ
  pub raw_miss_tokens : ℕ
  pub cached_token_cap : ℕ

abbrev pub of_accounted : AccountedLookupResult → LookupMetrics
of_accounted a = record {
  hbm_hit_tokens = a.hbm_hit_tokens;
  ddr_hit_tokens = a.ddr_hit_tokens;
  ddr_hit_bytes = sum_by (λ b. b.size_bytes) a.ddr_hit_blocks;
  miss_tokens = a.miss_tokens;
  miss_blocks = a.materialization_blocks;
  materialization_blocks = a.materialization_blocks;
  raw_hbm_hit_tokens = a.raw_hbm_hit_tokens;
  raw_ddr_hit_tokens = a.raw_ddr_hit_tokens;
  raw_miss_tokens = a.raw_miss_tokens;
  cached_token_cap = a.cached_token_cap;
}

unfoldable pub from_result : PrefixLookupResult → SimulationRequest → Result LookupMetrics
from_result lookup request = do
  accounted ← account_prefix_lookup lookup request.prompt_tokens request.block_conversion_result
  ok (of_accounted accounted)

abbrev pub effective_hit_tokens : LookupMetrics → ℕ
effective_hit_tokens m = m.hbm_hit_tokens + m.ddr_hit_tokens

-- The end of `_ensure_lookup` of src/infertwin/replay/event_loop.py: the metrics of a lookup, and the
-- request's state that has recorded them.
unfoldable pub record_lookup :
    PrefixLookupResult → SimulationRequest → RequestState → Result (LookupMetrics × RequestState)
unfolding from_result
record_lookup lookup request s = do
  metrics ← from_result lookup request
  s' ←
      set_cache_lookup (effective_hit_tokens metrics) metrics.miss_tokens metrics.ddr_hit_tokens
        metrics.ddr_hit_bytes s
  ok (metrics, s')
