-- ===== src/Scheduler/State/Laws.antt =====
-- The life of a request: looked up once, then computed until nothing remains, and finished then.
use infer_twin.Base.{
  ℕ, ◌+◌, ◌-◌, ◌≤◌, ◌<◌, Bool, true, false, ◌&&◌, ◌||◌, not, some, Result, ok, raise, value_error,
  arith, ◌≡◌, ◌≢◌, refl, ap, ◌∙◌, if◌then◌else◌, leb, ltb, ◌==◌, Bool-cases, inl, inr, ◌⊎◌,
}
use infer_twin.Scheduler.State.{
  RequestState, is_some, is_finished, set_cache_lookup, require_cache_lookup, has_pending_kv_load,
  consume_pending_kv_load, remaining_prefill_tokens, apply_scheduled_tokens, record_prefill_chunk,
  finish,
}

-- A request that has been looked up and whose counters are in order.
pub record IsReady (r : RequestState) : Type 0 where
  pub looked_up : r.cache_lookup_done ≡ true
  pub counted : is_some r.miss_tokens ≡ true
  pub cached : r.cached_tokens ≤ r.num_computed_tokens
  pub computed : r.num_computed_tokens ≤ r.prompt_tokens

abbrev pub remaining : RequestState → ℕ
remaining r = r.prompt_tokens - r.num_computed_tokens

pub ready-lookup : (r : RequestState) → IsReady r → require_cache_lookup r ≡ ok tt
unfolding require_cache_lookup
ready-lookup r h = rw (h.looked_up, h.counted) refl

pub ready-remaining : (r : RequestState) → IsReady r → remaining_prefill_tokens r ≡ ok (remaining r)
unfolding remaining_prefill_tokens
ready-remaining r h = rw (ready-lookup r h) refl

-- a load that is to be scheduled
abbrev pub pending : RequestState → Bool
pending r =
    not r.kv_load_scheduled && (ltb 0 r.pending_kv_load_tokens || ltb 0 r.pending_kv_load_bytes)

-- the request once its load is scheduled
abbrev pub loaded : RequestState → RequestState
loaded r =
    if pending r
    then record r {
      pending_kv_load_tokens = 0;
      pending_kv_load_bytes = 0;
      kv_load_scheduled = true;
    }
    else r

pub ready-pending : (r : RequestState) → IsReady r → has_pending_kv_load r ≡ ok (pending r)
unfolding has_pending_kv_load
ready-pending r h = rw (ready-lookup r h) refl

pub ready-consume :
    (r : RequestState)
    → IsReady r
    → consume_pending_kv_load r
      ≡ ok (
        (
          if pending r then r.pending_kv_load_tokens else 0,
          if pending r then r.pending_kv_load_bytes else 0,
        ),
        loaded r,
      )
unfolding consume_pending_kv_load
ready-consume r h =
    let p = ready-pending r h in
    elim (Bool-cases (pending r)) [
      | inl load ↦ rw (p, load) refl
      | inr no_load ↦ rw (p, no_load) refl
    ]

pub loaded-IsReady : (r : RequestState) → IsReady r → IsReady (loaded r)
loaded-IsReady r h = elim (Bool-cases (pending r)) [
  | inl load ↦ rw load record {
    looked_up = h.looked_up;
    counted = h.counted;
    cached = h.cached;
    computed = h.computed;
  }
  | inr no_load ↦ rw no_load h
]

-- What the lookup of a request promises: it is done once, for counts that make up the prompt.
pub data LookedUp (r : RequestState) (cached miss tokens bytes : ℕ)
    : Result RequestState → Type 0 where
  refused :
      (r.cache_lookup_done ≡ true) ⊎ (cached + miss ≢ r.prompt_tokens)
      → LookedUp r cached miss tokens bytes (raise value_error)
  accepted :
      {r' : RequestState}
      → r.cache_lookup_done ≡ false
      → cached + miss ≡ r.prompt_tokens
      → IsReady r'
      → remaining r' ≡ miss
      → has_pending_kv_load r' ≡ ok (ltb 0 tokens || ltb 0 bytes)
      → LookedUp r cached miss tokens bytes (ok r')

-- the request once it is looked up
abbrev with_lookup : (cached miss tokens bytes : ℕ) → RequestState → RequestState
with_lookup cached miss tokens bytes r = record r {
  cached_tokens = cached;
  miss_tokens = some miss;
  num_computed_tokens = cached;
  pending_kv_load_tokens = tokens;
  pending_kv_load_bytes = bytes;
  kv_load_scheduled = false;
  cache_lookup_done = true;
}

set_cache_lookup-raise :
    (r : RequestState) (cached miss tokens bytes : ℕ)
    → (r.cache_lookup_done ≡ true) ⊎ ((cached + miss == r.prompt_tokens) ≡ false)
    → set_cache_lookup cached miss tokens bytes r ≡ raise value_error
unfolding set_cache_lookup
set_cache_lookup-raise r cached miss tokens bytes (inl done) = rw done refl
set_cache_lookup-raise r cached miss tokens bytes (inr other) =
    elim (Bool-cases r.cache_lookup_done) [
      | inl done ↦ rw done refl
      | inr new ↦ rw (new, other) refl
    ]

set_cache_lookup-ok :
    (r : RequestState) (cached miss tokens bytes : ℕ)
    → r.cache_lookup_done ≡ false
    → (cached + miss == r.prompt_tokens) ≡ true
    → set_cache_lookup cached miss tokens bytes r ≡ ok (with_lookup cached miss tokens bytes r)
unfolding set_cache_lookup
set_cache_lookup-ok r cached miss tokens bytes new sum = simp (new, sum)

with_lookup-IsReady :
    (r : RequestState) (cached miss tokens bytes : ℕ)
    → cached + miss ≡ r.prompt_tokens
    → IsReady (with_lookup cached miss tokens bytes r)
with_lookup-IsReady r cached miss tokens bytes e = record {
  looked_up = refl;
  counted = refl;
  cached = omega arith;
  computed = omega (arith, e);
}

with_lookup-pending :
    (r : RequestState) (cached miss tokens bytes : ℕ)
    → has_pending_kv_load (with_lookup cached miss tokens bytes r)
      ≡ ok (ltb 0 tokens || ltb 0 bytes)
unfolding has_pending_kv_load require_cache_lookup
with_lookup-pending r cached miss tokens bytes = refl

-- `set_cache_lookup` raises ValueError if the request was looked up before or if the cached and the
-- missing tokens are not the tokens of the prompt. Otherwise the request is ready, the missing
-- tokens are what remains to compute, and a load is pending if there are tokens or bytes to load.
pub set_cache_lookup-LookedUp :
    (r : RequestState) (cached miss tokens bytes : ℕ)
    → LookedUp r cached miss tokens bytes (set_cache_lookup cached miss tokens bytes r)
set_cache_lookup-LookedUp r cached miss tokens bytes = elim (Bool-cases r.cache_lookup_done) [
  | inl done ↦
      rw (set_cache_lookup-raise r cached miss tokens bytes (inl done)) (refused (inl done))
  | inr new ↦ elim (Bool-cases (cached + miss == r.prompt_tokens)) [
    | inl sum ↦
        let e : cached + miss ≡ r.prompt_tokens = ground arith in
        rw (set_cache_lookup-ok r cached miss tokens bytes new sum) (
          accepted new e (with_lookup-IsReady r cached miss tokens bytes e) (omega (arith, e))
            (with_lookup-pending r cached miss tokens bytes))
    | inr other ↦
        rw (set_cache_lookup-raise r cached miss tokens bytes (inr other))
          (refused (inr (λ e. ground arith)))
  ]
]

-- A request that has computed `scheduled` tokens more, and is finished if these were the last.
pub record Advanced (r : RequestState) (scheduled time : ℕ) (r' : RequestState) : Type 0 where
  pub ready : IsReady r'
  pub progress : r'.num_computed_tokens ≡ r.num_computed_tokens + scheduled
  pub same_prompt : r'.prompt_tokens ≡ r.prompt_tokens
  pub chunks : r'.chunk_count ≡ r.chunk_count + 1
  pub ends :
      ((remaining r' ≡ 0) × (is_finished r'.status ≡ true) × (r'.finish_time_ms ≡ some time))
      ⊎ ((0 < remaining r') × (r'.status ≡ r.status) × (r'.finish_time_ms ≡ r.finish_time_ms))

pub data Applied (r : RequestState) (scheduled time : ℕ) : Result RequestState → Type 0 where
  rejected :
      (scheduled ≡ 0) ⊎ (time < r.arrival_time_ms) ⊎ (remaining r < scheduled)
      → Applied r scheduled time (raise value_error)
  applied :
      {r' : RequestState}
      → 0 < scheduled
      → r.arrival_time_ms ≤ time
      → scheduled ≤ remaining r
      → Advanced r scheduled time r'
      → Applied r scheduled time (ok r')

-- the request with more tokens computed
abbrev with_tokens : ℕ → RequestState → RequestState
with_tokens scheduled r = record r {
  num_computed_tokens = r.num_computed_tokens + scheduled;
  scheduled_iteration_count = r.scheduled_iteration_count + 1;
  chunk_count = r.chunk_count + 1;
}

abbrev advance : (scheduled time : ℕ) → RequestState → RequestState
advance scheduled time r =
    if r.num_computed_tokens + scheduled == r.prompt_tokens
    then finish time (with_tokens scheduled r)
    else with_tokens scheduled r

advance-Advanced :
    (r : RequestState) (scheduled time : ℕ)
    → IsReady r
    → scheduled ≤ remaining r
    → Advanced r scheduled time (advance scheduled time r)
advance-Advanced r scheduled time h fits =
    elim (Bool-cases (r.num_computed_tokens + scheduled == r.prompt_tokens)) [
      | inl last ↦
          let e : r.num_computed_tokens + scheduled ≡ r.prompt_tokens = ground arith in
          rw last record {
            ready = record {
              looked_up = h.looked_up;
              counted = h.counted;
              cached = omega arith;
              computed = omega arith;
            };
            progress = refl;
            same_prompt = refl;
            chunks = refl;
            ends = inl (omega arith, refl, refl);
          }
      | inr more ↦ rw more record {
        ready = record {
          looked_up = h.looked_up;
          counted = h.counted;
          cached = omega arith;
          computed = omega arith;
        };
        progress = refl;
        same_prompt = refl;
        chunks = refl;
        ends = inr (ground arith, refl, refl);
      }
    ]

apply-equation :
    (r : RequestState) (scheduled time : ℕ)
    → IsReady r
    → apply_scheduled_tokens scheduled time r ≡ (
        if leb scheduled 0 || (ltb time r.arrival_time_ms || ltb (remaining r) scheduled)
        then raise value_error
        else ok (advance scheduled time r))
unfolding apply_scheduled_tokens record_prefill_chunk
apply-equation r scheduled time h =
    let l = ready-lookup r h in
    let e = ready-remaining r h in
    elim (Bool-cases (leb scheduled 0)) [
      | inl zero_tokens ↦ simp (l, zero_tokens)
      | inr some_tokens ↦ elim (Bool-cases (ltb time r.arrival_time_ms)) [
        | inl early ↦ simp (l, some_tokens, early)
        | inr in_time ↦ elim (Bool-cases (ltb (remaining r) scheduled)) [
          | inl over ↦ simp (l, some_tokens, in_time, over)
          | inr within ↦ simp (l, some_tokens, in_time, within)
        ]
      ]
    ]

-- For a ready request `apply_scheduled_tokens` raises ValueError if no token was scheduled, if it is
-- earlier than the arrival, or if more tokens were scheduled than remain. Otherwise the request is
-- ready, has computed just these tokens more in one chunk more, and is finished at this time if
-- nothing remains; if something remains its status is unchanged.
pub apply_scheduled_tokens-Applied :
    (r : RequestState) (scheduled time : ℕ)
    → IsReady r
    → Applied r scheduled time (apply_scheduled_tokens scheduled time r)
apply_scheduled_tokens-Applied r scheduled time h =
    elim (Bool-cases
      (leb scheduled 0 || (ltb time r.arrival_time_ms || ltb (remaining r) scheduled))) [
        | inl bad ↦
            rw (apply-equation r scheduled time h, bad)
              (rejected (elim (Bool-cases (leb scheduled 0)) [
                | inl zero_tokens ↦ inl (ground arith)
                | inr some_tokens ↦ elim (Bool-cases (ltb time r.arrival_time_ms)) [
                  | inl early ↦ inr (inl (ground arith))
                  | inr in_time ↦ inr (inr (ground arith))
                ]
              ]))
        | inr good ↦
            rw (apply-equation r scheduled time h, good)
              (applied (ground arith) (ground arith) (ground arith)
                (advance-Advanced r scheduled time h (ground arith)))
      ]

loaded-pending : (r : RequestState) → pending (loaded r) ≡ false
loaded-pending r = elim (Bool-cases (pending r)) [
  | inl load ↦ rw load refl
  | inr no_load ↦ rw (no_load, no_load) refl
]

consume-none :
    (r : RequestState)
    → has_pending_kv_load r ≡ ok false
    → consume_pending_kv_load r ≡ ok ((0, 0), r)
unfolding consume_pending_kv_load
consume-none r e = rw e refl

-- The load of a ready request is handed out once: `consume_pending_kv_load` gives the pending tokens
-- and bytes (none if no load is pending), and leaves a ready request with no pending load, of which
-- it gives no tokens and no bytes.
pub consume_pending_kv_load-once :
    (r : RequestState)
    → IsReady r
    → (r' : RequestState) × (consume_pending_kv_load r
        ≡ ok (
          (
            if pending r then r.pending_kv_load_tokens else 0,
            if pending r then r.pending_kv_load_bytes else 0,
          ),
          r',
        ))
      × IsReady r'
      × (has_pending_kv_load r' ≡ ok false)
      × (consume_pending_kv_load r' ≡ ok ((0, 0), r'))
consume_pending_kv_load-once r h =
    let h' = loaded-IsReady r h in
    let none_left = loaded-pending r in
    let again = ready-pending (loaded r) h' ∙ ap (λ b. ok b) none_left in
    (loaded r, ready-consume r h, h', again, consume-none (loaded r) again)
