-- ===== src/Cache/BlockSize/Laws.antt =====
-- The effective block size of a resolution.
use infer_twin.Base.Gcd.{lcm, Divides, lcm-left, lcm-right, lcm-pos, lcm-least}
use infer_twin.Base.{
  String, Option, none, some, false, length, ◌≤◌, ◌⊎◌, ok-injective, ℕ, ◌*◌, ◌<◌, true, List, [],
  ◌∷◌, ok, arith, ◌≡◌, refl, ap, All, Bool-cases, >>=-eq-ok, ltb, ◌&&◌, inl, inr,
}
use infer_twin.Cache.BlockSize.{
  CacheFamily, BlockSizeInput, BlockSizeResolution, supported, lcm_all, resolve, resolve_checked,
  context_parallel_unsupported, resolve_family, resolve_hybrid, require_positive_all,
  full_attention, sliding_window, mamba, hybrid, other_family, runtime_of, context_parallel_factor,
  UnsupportedReason, unsupported, is_nil, context_parallel, hybrid_without_groups,
  unsupported_family,
}

Divides-trans : {a b c : ℕ} → Divides a b → Divides b c → Divides a c
Divides-trans p q = record {
  times = q.times * p.times;
  exact = omega (arith, q.exact, ap (λ (t : ℕ). q.times * t) p.exact);
}

abbrev pub Positive : ℕ → Type 0
Positive n = 0 < n

-- The least common multiple of the first number and of all others: it divides every other one.
pub record LeastMultiple (a : ℕ) (ns : List ℕ) (m : ℕ) : Type 0 where
  pub positive : 0 < m
  pub first : Divides a m
  pub others : All (λ n. Divides n m) ns
  pub least : (k : ℕ) → Divides a k → All (λ n. Divides n k) ns → Divides m k

lcm_all_lem : (a : ℕ) (ns : List ℕ) → 0 < a → All Positive ns → LeastMultiple a ns (lcm_all a ns)
unfolding lcm_all
lcm_all_lem a [] h hs = record {
  positive = h;
  first = record { times = 1; exact = omega arith };
  others = tt;
  least = λ k d ds. d;
}
lcm_all_lem a (n ∷ ns) h hs =
    let ih = lcm_all_lem (lcm a n) ns (lcm-pos a n h hs.0) hs.1 in
    record {
      positive = ih.positive;
      first = Divides-trans (lcm-left a n h) ih.first;
      others = (Divides-trans (lcm-right a n) ih.first, ih.others);
      least = λ k d ds. ih.least k (lcm-least a n k h d ds.0) ds.1;
    }

require_positive_all_lem : (ns : List ℕ) → require_positive_all ns ≡ ok tt → All Positive ns
unfolding require_positive_all
require_positive_all_lem [] h = tt
require_positive_all_lem (n ∷ ns) h = ground (arith, require_positive_all_lem ns)

-- What a supported resolution promises of its effective size, by cache family.
abbrev pub EffectiveSize : CacheFamily → BlockSizeInput → ℕ → Type 0
EffectiveSize full_attention c effective = effective ≡ runtime_of c * context_parallel_factor c
EffectiveSize hybrid c effective = LeastMultiple (runtime_of c) c.hybrid_group_block_sizes effective
EffectiveSize _ c effective = effective ≡ runtime_of c

-- The families that context parallelism does not go with.
abbrev pub NotParallel : CacheFamily → Type 0
NotParallel sliding_window = Unit
NotParallel mamba = Unit
NotParallel hybrid = Unit
NotParallel _ = ⊥

-- The families that are known, a hybrid one with a group.
abbrev pub IsKnown : CacheFamily → BlockSizeInput → Type 0
IsKnown (other_family name) c = ⊥
IsKnown hybrid c = 0 < length c.hybrid_group_block_sizes
IsKnown _ c = Unit

-- Which inputs are supported, and why the others are not.
pub data Support (c : BlockSizeInput) (f : CacheFamily) : Option UnsupportedReason → Type 0 where
  parallel : 1 < context_parallel_factor c → NotParallel f → Support c f (some context_parallel)
  no_groups :
      f ≡ hybrid
      → context_parallel_factor c ≤ 1
      → c.hybrid_group_block_sizes ≡ []
      → Support c f (some hybrid_without_groups)
  unknown : (name : String) → f ≡ other_family name → Support c f (some unsupported_family)
  known : (context_parallel_factor c ≤ 1) ⊎ (f ≡ full_attention) → IsKnown f c → Support c f none

-- The sizes of the input are positive.
pub record IsChecked (c : BlockSizeInput) : Type 0 where
  pub requested : 0 < c.requested_block_size
  pub runtime : 0 < runtime_of c
  pub prefill : 0 < c.prefill_context_parallel_size
  pub decode : 0 < c.decode_context_parallel_size

pub record Resolved (c : BlockSizeInput) (f : CacheFamily) (r : BlockSizeResolution) : Type 0 where
  pub runtime : r.runtime_block_size ≡ runtime_of c
  pub positive : 0 < r.effective_block_size
  pub multiple : Divides (runtime_of c) r.effective_block_size
  pub support : Support c f r.unsupported_reason
  pub size : supported r ≡ true → EffectiveSize f c r.effective_block_size

unsupported_lem :
    (c : BlockSizeInput) (f : CacheFamily) (reason : UnsupportedReason)
    → Support c f (some reason)
    → 0 < runtime_of c
    → Resolved c f (unsupported c (runtime_of c) reason)
unsupported_lem c f reason why h = record {
  runtime = refl;
  positive = h;
  multiple = record { times = 1; exact = omega arith };
  support = why;
  size = λ e. cc;
}

is_nil-empty : (ns : List ℕ) → is_nil ns ≡ true → ns ≡ []
is_nil-empty [] h = refl
is_nil-empty (n ∷ ns) h = cc

is_nil-some : (ns : List ℕ) → is_nil ns ≡ false → 0 < length ns
is_nil-some [] h = cc
is_nil-some (n ∷ ns) h = omega arith

module _ (c : BlockSizeInput) (h : 0 < runtime_of c) (p : 0 < context_parallel_factor c) where
  resolve_hybrid_lem :
      {r : BlockSizeResolution}
      → context_parallel_factor c ≤ 1
      → resolve_hybrid c (runtime_of c) ≡ ok r
      → Resolved c hybrid r
  unfolding resolve_hybrid
  resolve_hybrid_lem {r} one e = elim (Bool-cases (is_nil c.hybrid_group_block_sizes)) [
    | inl empty ↦
        let why = no_groups refl one (is_nil-empty c.hybrid_group_block_sizes empty) in
        ok-injective (Resolved c hybrid) (rw empty at e) (unsupported_lem c hybrid _ why h)
    | inr groups ↦
        let (u, positive, e1) =
          >>=-eq-ok (require_positive_all c.hybrid_group_block_sizes) _ (rw groups at e) in
        let common =
          lcm_all_lem (runtime_of c) c.hybrid_group_block_sizes h
            (require_positive_all_lem c.hybrid_group_block_sizes positive) in
        ok-injective (Resolved c hybrid) e1 (record {
          runtime = refl;
          positive = common.positive;
          multiple = common.first;
          support = known (inl one) (is_nil-some c.hybrid_group_block_sizes groups);
          size = λ _. common;
        })
  ]

  resolve_family_lem :
      (f : CacheFamily) {r : BlockSizeResolution}
      → (ltb 1 (context_parallel_factor c) && context_parallel_unsupported f) ≡ false
      → resolve_family c (runtime_of c) f ≡ ok r
      → Resolved c f r
  unfolding resolve_family
  resolve_family_lem full_attention {r} free e =
      ok-injective (Resolved c full_attention) e (record {
        runtime = refl;
        positive = grind arith;
        multiple = record { times = context_parallel_factor c; exact = omega arith };
        support = known (inr refl) tt;
        size = λ _. refl;
      })
  resolve_family_lem hybrid free e = resolve_hybrid_lem (ground arith) e
  resolve_family_lem sliding_window free e = ok-injective (Resolved c sliding_window) e (record {
    runtime = refl;
    positive = h;
    multiple = record { times = 1; exact = omega arith };
    support = known (inl (ground arith)) tt;
    size = λ _. refl;
  })
  resolve_family_lem mamba free e = ok-injective (Resolved c mamba) e (record {
    runtime = refl;
    positive = h;
    multiple = record { times = 1; exact = omega arith };
    support = known (inl (ground arith)) tt;
    size = λ _. refl;
  })
  resolve_family_lem (other_family name) free e =
      ok-injective (Resolved c (other_family name)) e
        (unsupported_lem c (other_family name) _ (unknown name refl) h)

  refused-NotParallel : (f : CacheFamily) → context_parallel_unsupported f ≡ true → NotParallel f
  refused-NotParallel full_attention e = cc
  refused-NotParallel sliding_window e = tt
  refused-NotParallel mamba e = tt
  refused-NotParallel hybrid e = tt
  refused-NotParallel (other_family name) e = cc

  resolve_checked_lem :
      {r : BlockSizeResolution} → resolve_checked c ≡ ok r → Resolved c c.cache_family r
  unfolding resolve_checked
  resolve_checked_lem {r} e =
      elim (Bool-cases
        (ltb 1 (context_parallel_factor c) && context_parallel_unsupported c.cache_family)) [
          | inl refused ↦
              let why =
                parallel (ground arith) (refused-NotParallel c.cache_family (ground arith)) in
              ok-injective (Resolved c c.cache_family) (rw refused at e)
                (unsupported_lem c c.cache_family _ why h)
          | inr free ↦ resolve_family_lem c.cache_family free (rw free at e)
        ]

-- A resolution that is returned is for positive sizes and has a positive effective block size, a
-- multiple of the runtime block size. It is not supported exactly for context parallelism with a
-- sliding window, mamba or hybrid cache, for a hybrid cache without groups and for an unknown
-- family, each with its reason. Where it is supported, the effective size is the runtime size times
-- the context-parallel factor for full attention, the least common multiple of the runtime size and
-- all groups' sizes for a hybrid cache, and the runtime size for the other families.
pub resolve-Resolved :
    (c : BlockSizeInput) {r : BlockSizeResolution}
    → resolve c ≡ ok r
    → IsChecked c × Resolved c c.cache_family r
unfolding resolve
resolve-Resolved c {r} e =
    let requested : 0 < c.requested_block_size = ground arith in
    let runtime : 0 < runtime_of c = ground arith in
    let prefill : 0 < c.prefill_context_parallel_size = ground arith in
    let decode : 0 < c.decode_context_parallel_size = ground arith in
    (
      record { requested = requested; runtime = runtime; prefill = prefill; decode = decode },
      resolve_checked_lem c runtime (grind arith) (ground arith),
    )
