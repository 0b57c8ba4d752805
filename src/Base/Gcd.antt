-- ===== src/Base/Gcd.antt =====
-- Python's `math.lcm`, by Euclid's algorithm.
use Prim.Native.Nat.{ℕ, zero, suc, ◌+◌, ◌-◌, ◌*◌, ◌/◌, ◌%◌, ◌<◌}
use infer_twin.Base.Tests.{◌==◌, if◌then◌else◌, Bool-cases}
use mathlib.Core.Logic.{inl, inr}
use mathlib.Core.Path.{◌≡◌, refl, sym, ap}
use native.Mathlib.Nat.{
  div-add-mod, div-eq_of_eq-mul_left, mul-sub, mul_comm, eq_of_mul-eq-mul_right,
}
use native.Mathlib.Omega.{arith}

-- The fuel bounds the second number, which falls in each round.
gcd_fuel : ℕ → ℕ → ℕ → ℕ
gcd_fuel zero a b = a
gcd_fuel (suc fuel) a b = let rest = gcd_fuel fuel b (a % b) in if b == 0 then a else rest

pub gcd : ℕ → ℕ → ℕ
unfolding gcd_fuel
gcd a b = gcd_fuel (suc b) a b

unfoldable pub lcm : ℕ → ℕ → ℕ
unfolding gcd
lcm a b = a / gcd a b * b

pub record Divides (d n : ℕ) : Type 0 where
  pub times : ℕ
  pub exact : n ≡ times * d

record DividesBoth (d a b : ℕ) : Type 0 where
  left : Divides d a
  right : Divides d b

Divides-round : (d a b : ℕ) → Divides d b → Divides d (a % b) → Divides d a
Divides-round d a b p q = record {
  times = a / b * p.times + q.times;
  exact = omega (arith, div-add-mod a b, p.exact, q.exact, ap (λ (t : ℕ). a / b * t) p.exact);
}

gcd_fuel-divides : (fuel a b : ℕ) → b < fuel → DividesBoth (gcd_fuel fuel a b) a b
unfolding gcd_fuel
gcd_fuel-divides zero a b h = absurd (omega arith)
gcd_fuel-divides (suc fuel) a b h = elim (Bool-cases (b == 0)) [
  | inl done ↦ rw done (record {
    left = record { times = 1; exact = omega arith };
    right = record { times = 0; exact = ground arith };
  })
  | inr more ↦
      let ih = gcd_fuel-divides fuel b (a % b) (ground arith) in
      rw more (record {
        left = Divides-round (gcd_fuel fuel b (a % b)) a b ih.left ih.right;
        right = ih.left;
      })
]

gcd-divides : (a b : ℕ) → DividesBoth (gcd a b) a b
unfolding gcd
gcd-divides a b = gcd_fuel-divides (suc b) a b (omega arith)

gcd-pos : (a b : ℕ) → 0 < a → 0 < gcd a b
gcd-pos a b h = let both = gcd-divides a b in grind (arith, both.left.exact)

div-gcd : (a b : ℕ) → 0 < a → a / gcd a b ≡ (gcd-divides a b).left.times
div-gcd a b h = div-eq_of_eq-mul_left (gcd-pos a b h) (gcd-divides a b).left.exact

-- The least common multiple of positive numbers is a multiple of the first,
pub lcm-left : (a b : ℕ) → 0 < a → Divides a (lcm a b)
unfolding lcm
lcm-left a b h =
    let both = gcd-divides a b in
    let g = gcd a b in
    record {
      times = both.right.times;
      exact = rw (div-gcd a b h) (
          omega (
            arith,
            ap (λ (t : ℕ). both.left.times * t) both.right.exact,
            ap (λ (t : ℕ). both.right.times * t) both.left.exact,
          ));
    }

-- of the second,
pub lcm-right : (a b : ℕ) → Divides b (lcm a b)
unfolding lcm
lcm-right a b = record { times = a / gcd a b; exact = refl }

-- and positive.
pub lcm-pos : (a b : ℕ) → 0 < a → 0 < b → 0 < lcm a b
unfolding lcm
lcm-pos a b ha hb = rw (div-gcd a b ha) (grind (arith, (gcd-divides a b).left.exact))

Divides-rest : (d n r : ℕ) → Divides d n → Divides d (n + r) → Divides d r
Divides-rest d n r p q = record {
  times = q.times - p.times;
  exact = omega (
    arith,
    p.exact,
    q.exact,
    mul-sub d q.times p.times,
    mul_comm d q.times,
    mul_comm d p.times,
    mul_comm d (q.times - p.times),
  );
}

Divides-times : (d n k : ℕ) → Divides d n → Divides d (k * n)
Divides-times d n k p = record {
  times = k * p.times;
  exact = omega (arith, ap (λ (t : ℕ). k * t) p.exact);
}

-- What divides two multiples by one number divides that of their greatest common divisor.
gcd_fuel-scaled :
    (fuel d m a b : ℕ)
    → b < fuel
    → Divides d (a * m)
    → Divides d (b * m)
    → Divides d (gcd_fuel fuel a b * m)
unfolding gcd_fuel
gcd_fuel-scaled zero d m a b h p q = absurd (omega arith)
gcd_fuel-scaled (suc fuel) d m a b h p q = elim (Bool-cases (b == 0)) [
  | inl done ↦ rw done p
  | inr more ↦
      let round : a * m ≡ a / b * (b * m) + a % b * m =
        omega (arith, ap (λ (t : ℕ). t * m) (div-add-mod a b)) in
      let left =
        Divides-rest d (a / b * (b * m)) (a % b * m) (Divides-times d (b * m) (a / b) q)
          (rw (sym round) p) in
      rw more (gcd_fuel-scaled fuel d m b (a % b) (ground arith) q left)
]

-- The least common multiple divides every common multiple.
pub lcm-least : (a b m : ℕ) → 0 < a → Divides a m → Divides b m → Divides (lcm a b) m
unfolding lcm gcd
lcm-least a b m h p q =
    let g = gcd a b in
    let both = gcd-divides a b in
    let t = both.left.times in
    let scaled : Divides (a * b) (g * m) =
      gcd_fuel-scaled (suc b) (a * b) m a b (omega arith)
        (record { times = q.times; exact = omega (arith, ap (λ (x : ℕ). a * x) q.exact) })
        (record { times = p.times; exact = omega (arith, ap (λ (x : ℕ). b * x) p.exact) }) in
    let same : m * g ≡ scaled.times * (t * b) * g =
      omega (arith, scaled.exact, ap (λ (x : ℕ). scaled.times * (x * b)) both.left.exact) in
    record {
      times = scaled.times;
      exact =
          rw (div-gcd a b h)
            (eq_of_mul-eq-mul_right g (gcd-pos a b h) m (scaled.times * (t * b)) same);
    }
