-- ===== src/Scheduler/Config.antt =====
-- src/infertwin/scheduler/config.py and planning.py: the budgets, and the tokens of one request in one
-- iteration.
use infer_twin.Base.{
  ℕ, String, str_eq, Bool, true, ◌&&◌, not, Option, none, some, Result, ok, reject_if, ◌>>=◌, ◌>>◌,
  if◌then◌else◌, leb, ltb, min,
}
use infer_twin.Scheduler.State.{RequestState, remaining_prefill_tokens}

pub record SchedulerConfig : Type 0 where
  pub max_num_batched_tokens : ℕ
  pub max_num_seqs : ℕ
  pub enable_chunked_prefill : Bool
  pub long_prefill_token_threshold : Option ℕ
  pub policy : String

abbrev pub threshold_ok : Option ℕ → Bool
threshold_ok none = true
threshold_ok (some n) = ltb 0 n

-- `__post_init__`
unfoldable pub check_config : SchedulerConfig → Result SchedulerConfig
check_config c = do
  reject_if (leb c.max_num_batched_tokens 0)
  reject_if (leb c.max_num_seqs 0)
  reject_if (not (str_eq c.policy "fcfs"))
  reject_if (not (threshold_ok c.long_prefill_token_threshold))
  ok c

abbrev pub limit_by : ℕ → Option ℕ → ℕ
limit_by budget none = budget
limit_by budget (some threshold) = min budget threshold

unfoldable pub per_request_chunk_limit : SchedulerConfig → ℕ
per_request_chunk_limit c =
    if not c.enable_chunked_prefill
    then c.max_num_batched_tokens
    else limit_by c.max_num_batched_tokens c.long_prefill_token_threshold

-- `planned_prefill_tokens`, of a request with `remaining` tokens
unfoldable pub plan_remaining : SchedulerConfig → (remaining token_budget : ℕ) → ℕ
unfolding per_request_chunk_limit
plan_remaining c remaining token_budget =
    if leb remaining 0
    then 0
    else if not c.enable_chunked_prefill && ltb token_budget remaining
    then 0
    else min (min remaining token_budget) (per_request_chunk_limit c)

-- Without a budget the request is not looked at, so a request that was not looked up raises nothing.
unfoldable pub planned_prefill_tokens : SchedulerConfig → RequestState → ℕ → Result ℕ
unfolding plan_remaining
planned_prefill_tokens c s token_budget =
    if leb token_budget 0
    then ok 0
    else do remaining ← remaining_prefill_tokens s; ok (plan_remaining c remaining token_budget)
