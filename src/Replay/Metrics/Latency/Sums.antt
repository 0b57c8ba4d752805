-- ===== src/Replay/Metrics/Latency/Sums.antt =====
-- Shares in proportion to a weight, each rounded by at most one unit, add up to the amount that is shared,
-- up to one unit each.
use infer_twin.Base.{
  ◌≤◌, ℕ, ◌+◌, ◌*◌, ◌<◌, false, List, [], ◌∷◌, ◌≡◌, refl, ap, arith, ltb, ltb→lt, sum_by, All,
  if◌then◌else◌, length, inl, inr, Bool-cases,
}
use infer_twin.Scheduler.BatchShape.{ScheduledSlice}
use native.Mathlib.Nat.{le_of_mul-le-mul_right, add-mul, mul-add}

-- Two numbers that differ by no more than a tolerance.
abbrev pub Near : (tolerance x y : ℕ) → Type 0
Near tolerance x y = (x ≤ y + tolerance) × (y ≤ x + tolerance)

-- A division that is rounded by no more than one unit, up or down.
abbrev pub Rounded : (ℕ → ℕ → ℕ) → Type 0
Rounded divide = (x y : ℕ) → 0 < y → Near y (divide x y * y) x

-- Shares nearly in proportion to a weight make up the amount, up to one unit each.
sum-shares :
    (f w : ScheduledSlice → ℕ) (amount total : ℕ) (slices : List ScheduledSlice)
    → All (λ s. Near total (f s * total) (amount * w s)) slices
    → Near (length slices * total) (sum_by f slices * total) (amount * sum_by w slices)
sum-shares f w amount total [] h = (omega arith, omega arith)
sum-shares f w amount total (s ∷ slices) ((above, below), hs) =
    let (rest_above, rest_below) = sum-shares f w amount total slices hs in
    let e1 = add-mul (f s) (sum_by f slices) total in
    let e2 = mul-add amount (w s) (sum_by w slices) in
    let e3 = add-mul 1 (length slices) total in
    (omega (arith, above, rest_above, e1, e2, e3), omega (arith, below, rest_below, e1, e2, e3))

sum_zero :
    (f : ScheduledSlice → ℕ) (slices : List ScheduledSlice)
    → All (λ s. f s ≡ 0) slices
    → sum_by f slices ≡ 0
sum_zero f [] h = refl
sum_zero f (s ∷ slices) (h, hs) = omega (arith, h, sum_zero f slices hs)

-- With a total that is 0 there are no shares.
pub sum-shares_whole :
    (f w : ScheduledSlice → ℕ) (amount total : ℕ) (slices : List ScheduledSlice)
    → total ≡ sum_by w slices
    → (0 < total → All (λ s. Near total (f s * total) (amount * w s)) slices)
    → (ltb 0 total ≡ false → All (λ s. f s ≡ 0) slices)
    → Near (length slices) (sum_by f slices) (if ltb 0 total then amount else 0)
sum-shares_whole f w amount total slices e shared absent = elim (Bool-cases (ltb 0 total)) [
  | inl positive ↦
      let some_total : 0 < total = ltb→lt 0 total positive in
      let (above, below) = sum-shares f w amount total slices (shared some_total) in
      let whole : amount * total ≡ amount * sum_by w slices = ap (λ (t : ℕ). amount * t) e in
      let n = length slices in
      let e1 = add-mul amount n total in
      let e2 = add-mul (sum_by f slices) n total in
      rw positive (
        le_of_mul-le-mul_right {m = sum_by f slices} {n = amount + n} {k = total}
            (omega (arith, above, whole, e1)) some_total,
        le_of_mul-le-mul_right {m = amount} {n = sum_by f slices + n} {k = total}
            (omega (arith, below, whole, e2)) some_total,
      )
  | inr none_at_all ↦
      let zero_sum = sum_zero f slices (absent none_at_all) in
      rw none_at_all (omega (arith, zero_sum), omega arith)
]
