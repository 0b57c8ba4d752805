-- ===== src/Latency/Memo.antt =====
-- src/infertwin/latency/memo.py: `ShapeMemo`, the latencies that were computed, by key.
pub mod Laws
use infer_twin.Base.{
  Bool, true, false, not, List, [], ◌∷◌, Option, none, some, Result, ok, raise, value_error,
  reject_if, ◌>>=◌, ◌>>◌, if◌then◌else◌,
}
use infer_twin.Latency.Schema.{ShapeKey, key_eq, LatencyResult}

pub record ShapeMemo : Type 0 where
  pub results : List (ShapeKey × LatencyResult)

abbrev pub mark : Bool → LatencyResult → LatencyResult
mark memoized r = record r { memoized = memoized }

-- `self._results.get(key)`
unfoldable pub find : ShapeKey → List (ShapeKey × LatencyResult) → Option LatencyResult
find key [] = none
find key ((k, r) ∷ results) = if key_eq k key then some r else find key results

-- `self._results[key] = result`: in place, or at the end
unfoldable pub assign :
    ShapeKey → LatencyResult → List (ShapeKey × LatencyResult) → List (ShapeKey × LatencyResult)
assign key r [] = (key, r) ∷ []
assign key r ((k, s) ∷ results) =
    if key_eq k key then (k, r) ∷ results else (k, s) ∷ assign key r results

abbrev pub marked : Option LatencyResult → Option LatencyResult
marked none = none
marked (some r) = some (mark true r)

unfoldable pub get : ShapeKey → ShapeMemo → Option LatencyResult
get key m = marked (find key m.results)

unfoldable pub put : LatencyResult → ShapeMemo → ShapeMemo
put r m = record { results = assign r.shape_key (mark false r) m.results }

-- `compute` is the outcome of the call that is made where the memo has no result.
unfoldable pub get_or_compute :
    ShapeKey → Result LatencyResult → ShapeMemo → Result (LatencyResult × ShapeMemo)
get_or_compute key compute m = cached_or_computed (get key m)
  where
    cached_or_computed : Option LatencyResult → Result (LatencyResult × ShapeMemo)
    cached_or_computed (some r) = ok (r, m)
    cached_or_computed none = do
      r ← compute
      reject_if (not (key_eq r.shape_key key))
      ok (mark false r, put r m)
