-- ===== src/Latency/Memo/Laws.antt =====
-- Remembering latencies changes no latency.
use infer_twin.Base.{
  ℕ, true, false, List, [], ◌∷◌, none, some, Result, ok, raise, Exception, ◌>>=◌, if◌then◌else◌,
  ◌≡◌, refl, sym, subst, ap, ◌∙◌, arith, eq_iff, str_eq_self, ◌==◌, Bool-cases, Option-cases, inl,
  inr,
}
use infer_twin.Latency.Memo.{ShapeMemo, mark, find, assign, get, put, get_or_compute}
use infer_twin.Latency.Schema.{ShapeKey, key_eq, LatencyResult}

key_eq→≡ : (a b : ShapeKey) → key_eq a b ≡ true → a ≡ b
unfolding key_eq
key_eq→≡ a b h =
    let e1 : a.backend ≡ b.backend = ground (arith, eq_iff a.backend b.backend) in
    let e2 : a.model_name ≡ b.model_name = ground (arith, eq_iff a.model_name b.model_name) in
    let e3 : a.hardware_name ≡ b.hardware_name =
      ground (arith, eq_iff a.hardware_name b.hardware_name) in
    let e4 : a.batch_size ≡ b.batch_size = ground arith in
    let e5 : a.scheduled_prefill_tokens ≡ b.scheduled_prefill_tokens = ground arith in
    let e6 : a.scheduled_decode_tokens ≡ b.scheduled_decode_tokens = ground arith in
    let e7 : a.max_query_len ≡ b.max_query_len = ground arith in
    let e8 : a.total_context_tokens ≡ b.total_context_tokens = ground arith in
    let e9 : a.kv_load_tokens ≡ b.kv_load_tokens = ground arith in
    let e10 : a.kv_load_bytes ≡ b.kv_load_bytes = ground arith in
    let e11 : a.kv_load_request_count ≡ b.kv_load_request_count = ground arith in
    λ i. record {
      backend = e1 i;
      model_name = e2 i;
      hardware_name = e3 i;
      batch_size = e4 i;
      scheduled_prefill_tokens = e5 i;
      scheduled_decode_tokens = e6 i;
      max_query_len = e7 i;
      total_context_tokens = e8 i;
      kv_load_tokens = e9 i;
      kv_load_bytes = e10 i;
      kv_load_request_count = e11 i;
    }

number_eq_self : (n : ℕ) → (n == n) ≡ true
number_eq_self n = ground arith

key_eq_self : (a : ShapeKey) → key_eq a a ≡ true
unfolding key_eq
key_eq_self a = simp (str_eq_self, number_eq_self)

key_eq-true : (a b : ShapeKey) → a ≡ b → key_eq a b ≡ true
key_eq-true a b h = rw h (key_eq_self b)

find-assign :
    (k key : ShapeKey) (r : LatencyResult) (l : List (ShapeKey × LatencyResult))
    → find k (assign key r l) ≡ (if key_eq key k then some r else find k l)
unfolding find assign
find-assign k key r [] = refl
find-assign k key r ((j, s) ∷ l) = elim (Bool-cases (key_eq j key)) [
  | inl same ↦ elim (Bool-cases (key_eq key k)) [
    | inl found ↦
        let e = key_eq-true j k (key_eq→≡ j key same ∙ key_eq→≡ key k found) in
        rw (same, e, found) refl
    | inr missed ↦ elim (Bool-cases (key_eq j k)) [
      | inl here ↦ let e = key_eq-true key k (sym (key_eq→≡ j key same) ∙ key_eq→≡ j k here) in cc
      | inr past ↦ rw (same, missed, past) refl
    ]
  ]
  | inr other ↦ elim (Bool-cases (key_eq j k)) [
    | inl here ↦ elim (Bool-cases (key_eq key k)) [
      | inl found ↦ let e = key_eq-true j key (key_eq→≡ j k here ∙ sym (key_eq→≡ key k found)) in cc
      | inr missed ↦ rw (other, here, missed) refl
    ]
    | inr past ↦ rw (other, past, find-assign k key r l) refl
  ]
]

-- What the memo holds for a key is what `compute` returns for it.
abbrev pub Remembers : (ShapeKey → Result LatencyResult) → ShapeMemo → Type 0
Remembers compute m =
    (key : ShapeKey) (r : LatencyResult)
    → find key m.results ≡ some r
    → (r0 : LatencyResult) × (compute key ≡ ok r0) × (r ≡ mark false r0)

-- A backend that answers for the shape it was asked for.
abbrev pub Answers : (ShapeKey → Result LatencyResult) → Type 0
Answers compute = (key : ShapeKey) (r : LatencyResult) → compute key ≡ ok r → r.shape_key ≡ key

-- The latencies of a sequence of shapes, with the memo and without it.
unfoldable pub through_memo :
    (ShapeKey → Result LatencyResult) → List ShapeKey → ShapeMemo → Result (List LatencyResult)
through_memo compute [] m = ok []
through_memo compute (key ∷ keys) m = do
  answer ← get_or_compute key (compute key) m
  rest ← through_memo compute keys answer.1
  ok (mark false answer.0 ∷ rest)

unfoldable pub directly :
    (ShapeKey → Result LatencyResult) → List ShapeKey → Result (List LatencyResult)
directly compute [] = ok []
directly compute (key ∷ keys) = do
  r ← compute key
  rest ← directly compute keys
  ok (mark false r ∷ rest)

-- one call, where the key was seen before, and where it was not
get_or_compute-hit :
    (key : ShapeKey) (c : Result LatencyResult) (m : ShapeMemo) (r : LatencyResult)
    → find key m.results ≡ some r
    → get_or_compute key c m ≡ ok (mark true r, m)
unfolding get_or_compute get
get_or_compute-hit key c m r h = rw h refl

get_or_compute-raise :
    (key : ShapeKey) (m : ShapeMemo) {e : Exception}
    → find key m.results ≡ none
    → get_or_compute key (raise e) m ≡ raise e
unfolding get_or_compute get
get_or_compute-raise key m h = rw h refl

get_or_compute-miss :
    (key : ShapeKey) (m : ShapeMemo) (r : LatencyResult)
    → find key m.results ≡ none
    → key_eq r.shape_key key ≡ true
    → get_or_compute key (ok r) m ≡ ok (mark false r, put r m)
unfolding get_or_compute get
get_or_compute-miss key m r h same = rw (h, same) refl

Remembers-put :
    (compute : ShapeKey → Result LatencyResult) (key : ShapeKey) (m : ShapeMemo) (r : LatencyResult)
    → Remembers compute m
    → compute key ≡ ok r
    → r.shape_key ≡ key
    → Remembers compute (put r m)
unfolding put
Remembers-put compute key m r known h of_key k s found =
    let e = sym (find-assign k r.shape_key (mark false r) m.results) ∙ found in
    elim (Bool-cases (key_eq r.shape_key k)) [
      | inl same ↦
          let e2 : (if true then some (mark false r) else find k m.results) ≡ some s =
            subst (λ x. (if x then some (mark false r) else find k m.results) ≡ some s) same e in
          (r, subst (λ x. compute x ≡ ok r) (sym of_key ∙ key_eq→≡ r.shape_key k same) h, cc)
      | inr other ↦
          known k s
            (subst (λ x. (if x then some (mark false r) else find k m.results) ≡ some s) other e)
    ]

through_memo-computed :
    (compute : ShapeKey → Result LatencyResult) (key : ShapeKey) (keys : List ShapeKey)
    (m : ShapeMemo)
    → Answers compute
    → Remembers compute m
    → ((m' : ShapeMemo)
        → Remembers compute m'
        → through_memo compute keys m' ≡ directly compute keys)
    → find key m.results ≡ none
    → (c : Result LatencyResult) → compute key ≡ c
    → through_memo compute (key ∷ keys) m ≡ directly compute (key ∷ keys)
unfolding through_memo directly
through_memo-computed compute key keys m answers known later missed (raise e) h =
    rw (h, get_or_compute-raise key m missed) refl
through_memo-computed compute key keys m answers known later missed (ok r) h =
    let of_key = answers key r h in
    let same = key_eq-true r.shape_key key of_key in
    let after = later (put r m) (Remembers-put compute key m r known h of_key) in
    rw (h, get_or_compute-miss key m r missed same, after) refl

-- From a memo that holds only what the backend answers, the latencies of a sequence of shapes are, but
-- for their mark, those of the backend asked each time, and so is the exception of a failing one, where
-- the backend answers for the shape it was asked for.
pub through_memo-directly :
    (compute : ShapeKey → Result LatencyResult) (keys : List ShapeKey) (m : ShapeMemo)
    → Answers compute
    → Remembers compute m
    → through_memo compute keys m ≡ directly compute keys
unfolding through_memo directly
through_memo-directly compute [] m answers known = refl
through_memo-directly compute (key ∷ keys) m answers known =
    elim (Option-cases (find key m.results)) [
      | inr (r, found) ↦
          let (r0, c, same) = known key r found in
          let e : mark false (mark true r) ≡ mark false r0 = ap (mark false) same in
          rw
            (
              get_or_compute-hit key (compute key) m r found,
              c,
              through_memo-directly compute keys m answers known,
              e,
            )
            refl
      | inl missed ↦
          through_memo-computed compute key keys m answers known
            (λ m'. through_memo-directly compute keys m' answers) missed (compute key) refl
    ]
