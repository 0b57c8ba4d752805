-- ===== src/Streaming/Aggregate/Laws.antt =====
-- Adding up the metrics as they come gives the row of all of them.
use infer_twin.Base.{
  ℕ, String, str_eq_self, append-nil, Bool, true, List, [], ◌∷◌, ◌++◌, map, append_assoc, Result,
  ok, ◌≡◌, refl, sym, ap, ◌∙◌, ◌>>=◌, All, All-imp, Bool-cases, inl, inr, subst,
}
use infer_twin.Experiment.Rows.{
  Scope, mode_eq, mode_blank, granularity_eq, granularity_blank, not_blank, all_eq, only_value,
  resolve_metric_string, aggregate_row,
}
use infer_twin.Replay.Metrics.Build.{BatchAwareRequestMetrics, IterationMetrics}
use infer_twin.Replay.Timeline.{
  TimelineMode, legacy, progressive, other_mode, TtftGranularity, iteration, chunk,
}
use infer_twin.Streaming.Aggregate.Summary.{summary, with_request-summary, with_iteration-summary}
use infer_twin.Streaming.Aggregate.{
  ScopeAccumulator, new_accumulator, check_timeline_values, on_request, on_iteration, to_row,
}

-- What a replay reports, in the order in which it does.
pub data Report : Type 0 where
  request_done : BatchAwareRequestMetrics → Report
  iteration_done : IterationMetrics → Report

unfoldable pub feed : List Report → ScopeAccumulator → Result ScopeAccumulator
feed [] acc = ok acc
feed (request_done m ∷ reports) acc = do acc' ← on_request m acc; feed reports acc'
feed (iteration_done m ∷ reports) acc = do acc' ← on_iteration m acc; feed reports acc'

abbrev pub requests_of : List Report → List BatchAwareRequestMetrics
requests_of [] = []
requests_of (request_done m ∷ reports) = m ∷ requests_of reports
requests_of (iteration_done m ∷ reports) = requests_of reports

abbrev pub iterations_of : List Report → List IterationMetrics
iterations_of [] = []
iterations_of (request_done m ∷ reports) = iterations_of reports
iterations_of (iteration_done m ∷ reports) = m ∷ iterations_of reports

mode_eq-same : (a b : TimelineMode) → a ≡ b → mode_eq a b ≡ true
mode_eq-same a b e = subst (λ x. mode_eq a x ≡ true) e (reflexive a)
  where
    reflexive : (c : TimelineMode) → mode_eq c c ≡ true
    reflexive legacy = refl
    reflexive progressive = refl
    reflexive (other_mode name) = str_eq_self name

granularity_eq-same : (a b : TtftGranularity) → a ≡ b → granularity_eq a b ≡ true
granularity_eq-same a b e = subst (λ x. granularity_eq a x ≡ true) e (reflexive a)
  where
    reflexive : (c : TtftGranularity) → granularity_eq c c ≡ true
    reflexive iteration = refl
    reflexive chunk = refl

-- Where all values are the configured one, that one is the result.
module _ {A : Type 0} (eq : A → A → Bool) (blank : A → Bool)
    (eq-same : (a b : A) → a ≡ b → eq a b ≡ true) (c : A) where
  not_blank-All : (vs : List A) → All (λ v. v ≡ c) vs → All (λ v. v ≡ c) (not_blank eq blank vs)
  not_blank-All [] h = tt
  not_blank-All (v ∷ vs) (e, h) = elim (Bool-cases (blank v)) [
    | inl empty ↦ rw empty (not_blank-All vs h)
    | inr filled ↦ rw filled (e, not_blank-All vs h)
  ]

  all_eq-true : (v : A) (vs : List A) → v ≡ c → All (λ w. w ≡ c) vs → all_eq eq blank v vs ≡ true
  all_eq-true v [] e h = refl
  all_eq-true v (w ∷ vs) e (e1, h) = rw (eq-same w v (e1 ∙ sym e)) (all_eq-true v vs e h)

  only_value-ok : (vs : List A) → All (λ v. v ≡ c) vs → only_value eq blank c vs ≡ ok c
  only_value-ok [] h = refl
  only_value-ok (v ∷ vs) (e, h) = rw (all_eq-true v vs e h) (ap ok e)

  resolve-ok : (vs : List A) → All (λ v. v ≡ c) vs → resolve_metric_string eq blank c vs ≡ ok c
  unfolding resolve_metric_string
  resolve-ok vs h = only_value-ok (not_blank eq blank vs) (not_blank-All vs h)

-- A report of the timeline that is configured.
abbrev pub OfTimeline : TimelineMode → TtftGranularity → Report → Type 0
OfTimeline mode granularity (request_done m) =
    (m.timeline_mode ≡ mode) × (m.ttft_granularity ≡ granularity)
OfTimeline mode granularity (iteration_done m) =
    (m.timeline_mode ≡ mode) × (m.ttft_granularity ≡ granularity)

-- what all the reports have in one field
module _ {A : Type 0} (f : BatchAwareRequestMetrics → A) (g : IterationMetrics → A) (c : A) where
  abbrev Same : Report → Type 0
  Same (request_done m) = f m ≡ c
  Same (iteration_done m) = g m ≡ c

  All-iterations :
      (reports : List Report) → All Same reports → All (λ v. v ≡ c) (map g (iterations_of reports))
  All-iterations [] h = tt
  All-iterations (request_done m ∷ reports) (e, h) = All-iterations reports h
  All-iterations (iteration_done m ∷ reports) (e, h) = (e, All-iterations reports h)

  All-values :
      (reports : List Report)
      → All Same reports
      → All (λ v. v ≡ c) (map f (requests_of reports) ++ map g (iterations_of reports))
  All-values reports h = front reports h
    where
      front :
          (rest : List Report)
          → All Same rest
          → All (λ v. v ≡ c) (map f (requests_of rest) ++ map g (iterations_of reports))
      front [] known = All-iterations reports h
      front (request_done m ∷ rest) (e, known) = (e, front rest known)
      front (iteration_done m ∷ rest) (e, known) = front rest known

check-ok :
    (m : TimelineMode) (g : TtftGranularity) (acc : ScopeAccumulator)
    → m ≡ acc.timeline_mode
    → g ≡ acc.ttft_granularity
    → check_timeline_values m g acc ≡ ok tt
unfolding check_timeline_values
check-ok m g acc e1 e2 =
    rw (mode_eq-same m acc.timeline_mode e1, granularity_eq-same g acc.ttft_granularity e2) refl

feed-summary :
    (mode : TimelineMode) (granularity : TtftGranularity) (reports : List Report)
    (rs : List BatchAwareRequestMetrics) (is : List IterationMetrics)
    → All (OfTimeline mode granularity) reports
    → feed reports (summary mode granularity rs is)
      ≡ ok (summary mode granularity (rs ++ requests_of reports) (is ++ iterations_of reports))
unfolding feed on_request on_iteration
feed-summary mode granularity [] rs is h = rw (append-nil rs, append-nil is) refl
feed-summary mode granularity (request_done m ∷ reports) rs is ((e1, e2), h) =
    let now = summary mode granularity rs is in
    let next = with_request-summary mode granularity rs is m in
    let later = feed-summary mode granularity reports (rs ++ m ∷ []) is h in
    let joined = append_assoc rs (m ∷ []) (requests_of reports) in
    rw (check-ok m.timeline_mode m.ttft_granularity now e1 e2, next, later, joined) refl
feed-summary mode granularity (iteration_done m ∷ reports) rs is ((e1, e2), h) =
    let now = summary mode granularity rs is in
    let next = with_iteration-summary mode granularity rs is m in
    let later = feed-summary mode granularity reports rs (is ++ m ∷ []) h in
    let joined = append_assoc is (m ∷ []) (iterations_of reports) in
    rw (check-ok m.timeline_mode m.ttft_granularity now e1 e2, next, later, joined) refl

-- Reports of the configured timeline, in whatever order requests and iterations are interleaved, are all
-- accepted by a new accumulator, and its row is the one that `_aggregate_row` computes from all the
-- requests and all the iterations, exceptions included.
pub feed-aggregate_row :
    (divide : ℕ → ℕ → ℕ) (capacity : ℕ) (scope : Scope) (instance_uuid : String)
    (cache_event_count : ℕ) (mode : TimelineMode) (granularity : TtftGranularity)
    (reports : List Report)
    → All (OfTimeline mode granularity) reports
    → (acc : ScopeAccumulator) × (feed reports (new_accumulator mode granularity) ≡ ok acc)
      × (to_row divide capacity scope instance_uuid cache_event_count acc
          ≡ aggregate_row divide capacity scope instance_uuid
              (requests_of reports)
              (iterations_of reports)
              cache_event_count
              mode
              granularity)
unfolding new_accumulator to_row aggregate_row
feed-aggregate_row divide capacity scope instance_uuid cache_event_count mode granularity reports
      h =
    let modes =
      All-values (λ m. m.timeline_mode) (λ m. m.timeline_mode) mode reports
        (All-imp _ _ reports of_mode h) in
    let granularities =
      All-values (λ m. m.ttft_granularity) (λ m. m.ttft_granularity) granularity reports
        (All-imp _ _ reports of_granularity h) in
    let e1 = resolve-ok mode_eq mode_blank mode_eq-same mode _ modes in
    let e2 =
      resolve-ok granularity_eq granularity_blank granularity_eq-same granularity _ granularities in
    (
      summary mode granularity (requests_of reports) (iterations_of reports),
      feed-summary mode granularity reports [] [] h,
      rw (e1, e2) refl,
    )
  where
    of_mode :
        (r : Report)
        → OfTimeline mode granularity r
        → Same (λ m. m.timeline_mode) (λ m. m.timeline_mode) mode r
    of_mode (request_done m) e = e.0
    of_mode (iteration_done m) e = e.0

    of_granularity :
        (r : Report)
        → OfTimeline mode granularity r
        → Same (λ m. m.ttft_granularity) (λ m. m.ttft_granularity) granularity r
    of_granularity (request_done m) e = e.1
    of_granularity (iteration_done m) e = e.1
