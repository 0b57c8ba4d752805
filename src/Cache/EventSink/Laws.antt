-- ===== src/Cache/EventSink/Laws.antt =====
-- The statistics count every event once, and the sink in memory keeps the events up to its limit.
use infer_twin.Base.{
  Option, leb, ◌≤◌, ◌<◌, false, none, some, Option-cases, length-append, ℕ, ◌+◌, true, List, [],
  ◌∷◌, ◌++◌, Result, ok, raise, memory_error, max, length, sum_by, arith, ◌≡◌, refl, Bool-cases,
  inl, inr, append-nil, append_assoc, sym, ap, ◌∙◌, ◌⊎◌,
}
use infer_twin.Cache.Events.{
  EventType, lookup_hit, lookup_miss, materialize, evict, store, CacheEvent,
}
use infer_twin.Cache.EventSink.{
  CacheEventStats, count_kind, record_event, record_many, InMemoryCacheEventSink, is_full,
  emit_many,
}

abbrev hits : EventType → ℕ
hits lookup_hit = 1
hits _ = 0

abbrev misses : EventType → ℕ
misses lookup_miss = 1
misses _ = 0

abbrev materializations : EventType → ℕ
materializations materialize = 1
materializations _ = 0

abbrev evictions : EventType → ℕ
evictions evict = 1
evictions _ = 0

abbrev stores : EventType → ℕ
stores store = 1
stores _ = 0

-- the blocks in use after the last of the events
abbrev last_used : (CacheEvent → ℕ) → ℕ → List CacheEvent → ℕ
last_used used seen [] = seen
last_used used seen (e ∷ es) = last_used used (used e) es

-- all kinds together
abbrev kinds : CacheEventStats → ℕ
kinds s =
    s.lookup_hit_events + s.lookup_miss_events + s.materialize_events + s.evict_events
    + s.store_events

-- the most blocks that were used, up to the last of the events
abbrev peak_of : (CacheEvent → ℕ) → ℕ → List CacheEvent → ℕ
peak_of used seen [] = seen
peak_of used seen (e ∷ es) = peak_of used (max seen (used e)) es

pub record Counted (s : CacheEventStats) (es : List CacheEvent) (s' : CacheEventStats)
    : Type 0 where
  pub total : s'.total_events ≡ s.total_events + length es
  pub by_kind : kinds s' ≡ kinds s + length es
  pub hit : s'.lookup_hit_events ≡ s.lookup_hit_events + sum_by (λ e. hits e.event_type) es
  pub missed : s'.lookup_miss_events ≡ s.lookup_miss_events + sum_by (λ e. misses e.event_type) es
  pub materialized :
      s'.materialize_events ≡ s.materialize_events + sum_by (λ e. materializations e.event_type) es
  pub evicted : s'.evict_events ≡ s.evict_events + sum_by (λ e. evictions e.event_type) es
  pub stored : s'.store_events ≡ s.store_events + sum_by (λ e. stores e.event_type) es
  pub hbm_final :
      s'.final_hbm_used_blocks ≡ last_used (λ e. e.hbm_used_blocks) s.final_hbm_used_blocks es
  pub ddr_final :
      s'.final_ddr_used_blocks ≡ last_used (λ e. e.ddr_used_blocks) s.final_ddr_used_blocks es
  pub hbm_peak :
      s'.peak_hbm_used_blocks ≡ peak_of (λ e. e.hbm_used_blocks) s.peak_hbm_used_blocks es
  pub ddr_peak :
      s'.peak_ddr_used_blocks ≡ peak_of (λ e. e.ddr_used_blocks) s.peak_ddr_used_blocks es

-- counting a kind changes its counter only
record OneMore (k : EventType) (s s' : CacheEventStats) : Type 0 where
  total : s'.total_events ≡ s.total_events
  by_kind : kinds s' ≡ kinds s + 1
  hit : s'.lookup_hit_events ≡ s.lookup_hit_events + hits k
  missed : s'.lookup_miss_events ≡ s.lookup_miss_events + misses k
  materialized : s'.materialize_events ≡ s.materialize_events + materializations k
  evicted : s'.evict_events ≡ s.evict_events + evictions k
  stored : s'.store_events ≡ s.store_events + stores k
  hbm_peak : s'.peak_hbm_used_blocks ≡ s.peak_hbm_used_blocks
  ddr_peak : s'.peak_ddr_used_blocks ≡ s.peak_ddr_used_blocks

count_kind-OneMore : (k : EventType) (s : CacheEventStats) → OneMore k s (count_kind k s)
count_kind-OneMore lookup_hit s = record {
  total = refl;
  by_kind = omega arith;
  hit = omega arith;
  missed = omega arith;
  materialized = omega arith;
  evicted = omega arith;
  stored = omega arith;
  hbm_peak = refl;
  ddr_peak = refl;
}
count_kind-OneMore lookup_miss s = record {
  total = refl;
  by_kind = omega arith;
  hit = omega arith;
  missed = omega arith;
  materialized = omega arith;
  evicted = omega arith;
  stored = omega arith;
  hbm_peak = refl;
  ddr_peak = refl;
}
count_kind-OneMore materialize s = record {
  total = refl;
  by_kind = omega arith;
  hit = omega arith;
  missed = omega arith;
  materialized = omega arith;
  evicted = omega arith;
  stored = omega arith;
  hbm_peak = refl;
  ddr_peak = refl;
}
count_kind-OneMore evict s = record {
  total = refl;
  by_kind = omega arith;
  hit = omega arith;
  missed = omega arith;
  materialized = omega arith;
  evicted = omega arith;
  stored = omega arith;
  hbm_peak = refl;
  ddr_peak = refl;
}
count_kind-OneMore store s = record {
  total = refl;
  by_kind = omega arith;
  hit = omega arith;
  missed = omega arith;
  materialized = omega arith;
  evicted = omega arith;
  stored = omega arith;
  hbm_peak = refl;
  ddr_peak = refl;
}

-- From any statistics on, recording events counts each of them once, in the total and under
-- its own kind, and keeps the most and the last number of blocks used in each tier.
pub record_many-Counted :
    (es : List CacheEvent) (s : CacheEventStats) → Counted s es (record_many es s)
unfolding record_many record_event
record_many-Counted [] s = record {
  total = omega arith;
  by_kind = omega arith;
  hit = omega arith;
  missed = omega arith;
  materialized = omega arith;
  evicted = omega arith;
  stored = omega arith;
  hbm_final = refl;
  ddr_final = refl;
  hbm_peak = refl;
  ddr_peak = refl;
}
record_many-Counted (e ∷ es) s =
    let rest = record_many-Counted es (record_event e s) in
    let one = count_kind-OneMore e.event_type (record s { total_events = s.total_events + 1 }) in
    let t = rest.total in
    let k = rest.by_kind in
    let h = rest.hit in
    let v = rest.evicted in
    let m = rest.missed in
    let w = rest.materialized in
    let x = rest.stored in
    let t1 = one.total in
    let k1 = one.by_kind in
    let h1 = one.hit in
    let v1 = one.evicted in
    let m1 = one.missed in
    let w1 = one.materialized in
    let x1 = one.stored in
    record {
      total = omega (arith, t, t1);
      by_kind = omega (arith, k, k1);
      hit = omega (arith, h, h1);
      missed = omega (arith, m, m1);
      materialized = omega (arith, w, w1);
      evicted = omega (arith, v, v1);
      stored = omega (arith, x, x1);
      hbm_final = rest.hbm_final;
      ddr_final = rest.ddr_final;
      hbm_peak =
          rest.hbm_peak
          ∙ ap (λ n. peak_of (λ e. e.hbm_used_blocks) (max n e.hbm_used_blocks) es) one.hbm_peak;
      ddr_peak =
          rest.ddr_peak
          ∙ ap (λ n. peak_of (λ e. e.ddr_used_blocks) (max n e.ddr_used_blocks) es) one.ddr_peak;
    }

-- What the sink keeps of the events.
pub record Kept (s : InMemoryCacheEventSink) (es : List CacheEvent) (s' : InMemoryCacheEventSink)
    (outcome : Result (Unit {0})) : Type 0 where
  pub kept : List CacheEvent
  pub lost : List CacheEvent
  pub all : es ≡ kept ++ lost
  pub events : s'.events ≡ s.events ++ kept
  pub stats : s'.stats ≡ record_many kept s.stats
  -- the limit is never exceeded
  pub limit : (n : ℕ) → s.max_events ≡ some n → length s.events ≤ n → length s'.events ≤ n
  -- all are kept, or the limit is reached with events left
  pub end :
      ((lost ≡ []) × (outcome ≡ ok tt))
      ⊎ ((n : ℕ) × (s.max_events ≡ some n)
          × (n ≤ length s'.events)
          × (0 < length lost)
          × (outcome ≡ raise memory_error))

-- whether a sink is full, with its limit written out
is_full_at :
    (s : InMemoryCacheEventSink) (o : Option ℕ)
    → s.max_events ≡ o
    → is_full (record s { max_events = o }) ≡ is_full s
is_full_at s o e = sym (ap (λ l. is_full (record s { max_events = l })) e)

is_full-limit :
    (s : InMemoryCacheEventSink)
    → is_full s ≡ true
    → (n : ℕ) × (s.max_events ≡ some n) × (n ≤ length s.events)
is_full-limit s h = elim (Option-cases s.max_events) [
  | inl no_limit ↦ let e : false ≡ true = is_full_at s none no_limit ∙ h in cc
  | inr (n, limit) ↦
      let e : leb n (length s.events) ≡ true = is_full_at s (some n) limit ∙ h in
      (n, limit, ground arith)
]

is_full-room :
    (s : InMemoryCacheEventSink)
    → is_full s ≡ false
    → (n : ℕ) → s.max_events ≡ some n
    → length s.events < n
is_full-room s h n limit =
    let e : leb n (length s.events) ≡ false = is_full_at s (some n) limit ∙ h in ground arith

-- `emit_many` of the sink in memory appends a first part of the events to those that it has, and
-- records just these in its statistics. The events never exceed the limit. All are appended, or, with
-- MemoryError, those until the limit was reached, when some event was left.
pub emit_many-Kept :
    (es : List CacheEvent) (s : InMemoryCacheEventSink)
    → Kept s es (emit_many es s).0 (emit_many es s).1
unfolding emit_many record_many
emit_many-Kept [] s = record {
  kept = [];
  lost = [];
  all = refl;
  events = sym (append-nil s.events);
  stats = refl;
  limit = λ n e within. within;
  end = inl (refl, refl);
}
emit_many-Kept (e ∷ es) s = elim (Bool-cases (is_full s)) [
  | inl full ↦
      let (n, limited, reached) = is_full-limit s full in
      rw full (record {
        kept = [];
        lost = e ∷ es;
        all = refl;
        events = sym (append-nil s.events);
        stats = refl;
        limit = λ m e1 within. within;
        end = inr (n, limited, reached, omega arith, refl);
      })
  | inr room ↦
      let rest =
        emit_many-Kept es
          (record s { events = s.events ++ e ∷ []; stats = record_event e s.stats }) in
      let one_more = length-append s.events (e ∷ []) in
      rw room (record {
        kept = e ∷ rest.kept;
        lost = rest.lost;
        all = ap (λ xs. e ∷ xs) rest.all;
        events = rest.events ∙ append_assoc s.events (e ∷ []) rest.kept;
        stats = rest.stats;
        limit = λ n limited within.
            let free = is_full-room s room n limited in
            rest.limit n limited (omega (arith, one_more, free));
        end = rest.end;
      })
]
