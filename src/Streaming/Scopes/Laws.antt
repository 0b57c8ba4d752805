-- ===== src/Streaming/Scopes/Laws.antt =====
-- Every scope of the aggregator is fed with its own reports, and gives the row of those.
use infer_twin.Base.Dict.Laws.{lookup-insert}
use infer_twin.Base.Dict.{lookup, insert}
use infer_twin.Base.{
  ℕ, ◌+◌, String, str_eq, true, false, List, [], ◌∷◌, Result, ok, ◌>>=◌, ◌==◌, if◌then◌else◌, ◌≡◌,
  refl, sym, ap, ◌∙◌, arith, >>=-eq-ok, ok-injective, All, Bool-cases, inl, inr, subst, eq_iff,
  str_eq_self,
}
use infer_twin.Experiment.Rows.{Scope, trace, instance_scope, aggregate_row}
use infer_twin.Replay.Timeline.{TimelineMode, TtftGranularity}
use infer_twin.Streaming.Aggregate
use infer_twin.Streaming.Aggregate.Laws.{
  Report, request_done, iteration_done, feed, requests_of, iterations_of, OfTimeline,
  feed-aggregate_row,
}
use infer_twin.Streaming.Aggregate.{ScopeAccumulator, new_accumulator, to_row}
use infer_twin.Streaming.Scopes.{
  Aggregator, new_aggregator, accumulator, instance_of, validate_request_metric, on_request,
  on_iteration,
}

-- Feeding the aggregator with what a replay reports, in the order in which it does.
unfoldable pub feed_scopes : List Report → Aggregator → Result Aggregator
feed_scopes [] a = ok a
feed_scopes (request_done m ∷ reports) a = do a' ← on_request m a; feed_scopes reports a'
feed_scopes (iteration_done m ∷ reports) a = do a' ← on_iteration m a; feed_scopes reports a'

-- the instance that reports
abbrev pub reporter : Report → String
reporter (request_done m) = m.instance_uuid
reporter (iteration_done m) = m.instance_uuid

-- what one instance reports, in order
abbrev pub of_reporter : String → List Report → List Report
of_reporter uuid [] = []
of_reporter uuid (r ∷ reports) =
    if str_eq (reporter r) uuid then r ∷ of_reporter uuid reports else of_reporter uuid reports

-- The tokens of a report add up, and it names its instance.
abbrev pub WellFormed : Report → Type 0
WellFormed (request_done m) =
    (m.hbm_hit_tokens + m.ddr_hit_tokens + m.miss_tokens ≡ m.prompt_tokens)
    × (str_eq m.instance_uuid "" ≡ false)
WellFormed (iteration_done m) = str_eq m.instance_uuid "" ≡ false

abbrev absorb : Report → ScopeAccumulator → Result ScopeAccumulator
absorb (request_done m) acc = Aggregate.on_request m acc
absorb (iteration_done m) acc = Aggregate.on_iteration m acc

abbrev absorb_all : Report → Aggregator → Result Aggregator
absorb_all (request_done m) a = on_request m a
absorb_all (iteration_done m) a = on_iteration m a

feed-cons :
    (r : Report) (reports : List Report) (acc : ScopeAccumulator)
    → feed (r ∷ reports) acc ≡ (absorb r acc >>= feed reports)
unfolding feed
feed-cons (request_done m) reports acc = refl
feed-cons (iteration_done m) reports acc = refl

feed_scopes-cons :
    (r : Report) (reports : List Report) (a : Aggregator)
    → feed_scopes (r ∷ reports) a ≡ (absorb_all r a >>= feed_scopes reports)
unfolding feed_scopes
feed_scopes-cons (request_done m) reports a = refl
feed_scopes-cons (iteration_done m) reports a = refl

-- the aggregator in which one instance and the whole trace have new values
abbrev stored : String → (all own : ScopeAccumulator) → Aggregator → Aggregator
stored uuid all own a = record a { trace = all; instances = insert uuid own a.instances }

absorb_all-stored :
    (r : Report) (a : Aggregator) {all own : ScopeAccumulator}
    → WellFormed r
    → absorb r a.trace ≡ ok all
    → absorb r (accumulator (reporter r) a) ≡ ok own
    → absorb_all r a ≡ ok (stored (reporter r) all own a)
unfolding on_request on_iteration instance_of validate_request_metric
absorb_all-stored (request_done m) a {all} {own} (e, named) h1 h2 =
    let adds : (m.hbm_hit_tokens + m.ddr_hit_tokens + m.miss_tokens == m.prompt_tokens) ≡ true =
      ground (arith, e) in
    rw (adds, h1, named, h2) refl
absorb_all-stored (iteration_done m) a {all} {own} named h1 h2 = rw (h1, named, h2) refl

accumulator-stored :
    (uuid key : String) (all own : ScopeAccumulator) (a : Aggregator)
    → accumulator uuid (stored key all own a)
      ≡ (if str_eq key uuid then own else accumulator uuid a)
unfolding accumulator
accumulator-stored uuid key all own a = elim (Bool-cases (str_eq key uuid)) [
  | inl same ↦ rw (lookup-insert key uuid own a.instances, same) refl
  | inr other ↦ rw (lookup-insert key uuid own a.instances, other) refl
]

-- Every scope accepts its reports, with these results.
record Accepts (reports : List Report) (a : Aggregator) (all : ScopeAccumulator)
    (own : String → ScopeAccumulator) : Type 0 where
  of_trace : feed reports a.trace ≡ ok all
  of_instance :
      (uuid : String) → feed (of_reporter uuid reports) (accumulator uuid a) ≡ ok (own uuid)

-- The aggregator ends with these results.
record Fed (reports : List Report) (a : Aggregator) (all : ScopeAccumulator)
    (own : String → ScopeAccumulator) : Type 0 where
  final : Aggregator
  accepted : feed_scopes reports a ≡ ok final
  trace_result : final.trace ≡ all
  instance_result : (uuid : String) → accumulator uuid final ≡ own uuid

of_reporter_self :
    (r : Report) (reports : List Report)
    → of_reporter (reporter r) (r ∷ reports) ≡ r ∷ of_reporter (reporter r) reports
of_reporter_self r reports = rw (str_eq_self (reporter r)) refl

of_reporter_other :
    (uuid : String) (r : Report) (reports : List Report)
    → str_eq (reporter r) uuid ≡ false
    → of_reporter uuid (r ∷ reports) ≡ of_reporter uuid reports
of_reporter_other uuid r reports other = rw other refl

-- After a report the scopes accept those that are left.
Accepts-stored :
    (r : Report) (reports : List Report) (a : Aggregator) (all1 own1 : ScopeAccumulator)
    {all : ScopeAccumulator} {own : String → ScopeAccumulator}
    → Accepts (r ∷ reports) a all own
    → feed reports all1 ≡ ok all
    → feed (of_reporter (reporter r) reports) own1 ≡ ok (own (reporter r))
    → Accepts reports (stored (reporter r) all1 own1 a) all own
Accepts-stored r reports a all1 own1 {all} {own} h later own_later = record {
  of_trace = later;
  of_instance = each;
}
  where
    Accepted : String → ScopeAccumulator → Type 0
    Accepted uuid acc = feed (of_reporter uuid reports) acc ≡ ok (own uuid)

    each : (uuid : String) → Accepted uuid (accumulator uuid (stored (reporter r) all1 own1 a))
    each uuid =
        let e = accumulator-stored uuid (reporter r) all1 own1 a in
        elim (Bool-cases (str_eq (reporter r) uuid)) [
          | inl same ↦
              let p = (eq_iff (reporter r) uuid).0 same in
              let e1 : accumulator uuid (stored (reporter r) all1 own1 a) ≡ own1 =
                e ∙ ap (λ b. if b then own1 else accumulator uuid a) same in
              subst (Accepted uuid) (sym e1) (subst (λ k. Accepted k own1) p own_later)
          | inr other ↦
              let e1 : accumulator uuid (stored (reporter r) all1 own1 a) ≡ accumulator uuid a =
                e ∙ ap (λ b. if b then own1 else accumulator uuid a) other in
              let fewer = of_reporter_other uuid r reports other in
              subst (Accepted uuid) (sym e1) (
                subst (λ l. feed l (accumulator uuid a) ≡ ok (own uuid)) fewer (h.of_instance uuid))
        ]

feed_scopes-Fed :
    (reports : List Report) (a : Aggregator) {all : ScopeAccumulator}
    {own : String → ScopeAccumulator}
    → All WellFormed reports
    → Accepts reports a all own
    → Fed reports a all own
unfolding feed_scopes feed
feed_scopes-Fed [] a {all} {own} w h = record {
  final = a;
  accepted = refl;
  trace_result = ok-injective (λ x. a.trace ≡ x) h.of_trace refl;
  instance_result = λ uuid. ok-injective (λ x. accumulator uuid a ≡ x) (h.of_instance uuid) refl;
}
feed_scopes-Fed (r ∷ reports) a {all} {own} w h =
    let key = reporter r in
    let (all1, h1, later) =
      >>=-eq-ok (absorb r a.trace) (feed reports)
        (sym (feed-cons r reports a.trace) ∙ h.of_trace) in
    let of_own : feed (r ∷ of_reporter key reports) (accumulator key a) ≡ ok (own key) =
      subst (λ l. feed l (accumulator key a) ≡ ok (own key)) (of_reporter_self r reports)
        (h.of_instance key) in
    let (own1, h2, own_later) =
      >>=-eq-ok (absorb r (accumulator key a)) (feed (of_reporter key reports))
        (sym (feed-cons r (of_reporter key reports) (accumulator key a)) ∙ of_own) in
    let next = stored key all1 own1 a in
    let fed =
      feed_scopes-Fed reports next w.1 (Accepts-stored r reports a all1 own1 h later own_later) in
    record {
      final = fed.final;
      accepted =
          feed_scopes-cons r reports a
          ∙ ap (λ m. m >>= feed_scopes reports) (absorb_all-stored r a w.0 h1 h2)
          ∙ fed.accepted;
      trace_result = fed.trace_result;
      instance_result = fed.instance_result;
    }

-- Only reports of a list that have a property are among those of one instance.
All-of_reporter :
    (P : Report → Type 0) (uuid : String) (reports : List Report)
    → All P reports
    → All P (of_reporter uuid reports)
All-of_reporter P uuid [] known = tt
All-of_reporter P uuid (r ∷ reports) (now, known) = elim (Bool-cases (str_eq (reporter r) uuid)) [
  | inl same ↦ rw same (now, All-of_reporter P uuid reports known)
  | inr other ↦ rw other (All-of_reporter P uuid reports known)
]

-- What the accumulators of a scope give, given the reports of the scope.
abbrev pub RowOf :
    (divide : ℕ → ℕ → ℕ) (capacity : ℕ) (scope : Scope) (instance_uuid : String)
    (cache_event_count : ℕ) (mode : TimelineMode) (granularity : TtftGranularity)
    → List Report
    → ScopeAccumulator
    → Type 0
RowOf divide capacity scope instance_uuid cache_event_count mode granularity reports acc =
    to_row divide capacity scope instance_uuid cache_event_count acc
    ≡ aggregate_row divide capacity scope instance_uuid (requests_of reports)
        (iterations_of reports) cache_event_count mode granularity

-- Reports that are well formed and of the configured timeline, those of all instances interleaved in
-- whatever order, are all accepted by a new aggregator. Its row of the trace is then the one that
-- `_aggregate_row` computes from all of them, and its row of each instance the one of exactly the
-- reports of that instance, exceptions included.
pub feed_scopes-aggregate_row :
    (divide : ℕ → ℕ → ℕ) (capacity cache_event_count : ℕ) (mode : TimelineMode)
    (granularity : TtftGranularity) (reports : List Report)
    → All (OfTimeline mode granularity) reports
    → All WellFormed reports
    → (a : Aggregator) × (feed_scopes reports (new_aggregator mode granularity) ≡ ok a)
      × RowOf divide capacity trace "" cache_event_count mode granularity reports a.trace
      × ((uuid : String)
          → RowOf divide capacity instance_scope uuid 0 mode granularity
              (of_reporter uuid reports)
              (accumulator uuid a))
unfolding new_aggregator accumulator lookup
feed_scopes-aggregate_row divide capacity cache_event_count mode granularity reports h w =
    let whole =
      feed-aggregate_row divide capacity trace "" cache_event_count mode granularity reports h in
    let each : (uuid : String) → _ = λ uuid.
      feed-aggregate_row divide capacity instance_scope uuid 0 mode granularity
        (of_reporter uuid reports) (All-of_reporter _ uuid reports h) in
    let fed =
      feed_scopes-Fed reports (new_aggregator mode granularity) {all = whole.0}
        {own = λ uuid. (each uuid).0} w
        (record { of_trace = whole.1; of_instance = λ uuid. (each uuid).1 }) in
    (
      fed.final,
      fed.accepted,
      rw fed.trace_result whole.2,
      λ uuid. rw (fed.instance_result uuid) (each uuid).2,
    )
