-- ===== src/Base/Dict/Laws.antt =====
-- What can be read from a list of keys, and from a dictionary, after a change.
use infer_twin.Base.Dict.{contains, without, Distinct, keys, lookup, insert, remove}
use infer_twin.Base.Lists.{length, All}
use infer_twin.Base.Tests.{str_eq, eq_iff, if◌then◌else◌, str_eq_self, Bool-cases, Option-cases}
use Prim.Native.Nat.{suc, ◌≤◌}
use Prim.Native.String.{String}
use mathlib.Core.Bool.{true, false, ◌||◌}
use mathlib.Core.List.{List, [], ◌∷◌, ◌++◌}
use mathlib.Core.Logic.{inl, inr}
use mathlib.Core.Option.{none, some}
use mathlib.Core.Path.{◌≡◌, refl, ap, subst}
use native.Mathlib.Omega.{arith}

pub contains-append :
    (k : String) (xs ys : List String) → contains k (xs ++ ys) ≡ (contains k xs || contains k ys)
unfolding contains
contains-append k [] ys = refl
contains-append k (x ∷ xs) ys = ground (arith, contains-append k xs ys)

pub contains-without :
    (j k : String) (l : List String)
    → Distinct l
    → contains j (without k l) ≡ (if str_eq k j then false else contains j l)
unfolding contains without
contains-without j k [] d = ground arith
contains-without j k (x ∷ l) d =
    ground (arith, contains-without j k l d.1, eq_iff x k, eq_iff k j, eq_iff x j, d.0)

pub contains-without_ne :
    (j k : String) (l : List String) → str_eq k j ≡ false → contains j (without k l) ≡ contains j l
unfolding contains without
contains-without_ne j k [] h = refl
contains-without_ne j k (x ∷ l) h =
    ground (arith, contains-without_ne j k l h, eq_iff x k, eq_iff k j, eq_iff x j)

pub without_absent : (k : String) (l : List String) → contains k l ≡ false → without k l ≡ l
unfolding contains without
without_absent k [] h = refl
without_absent k (x ∷ l) h = ground (arith, without_absent k l)

pub length-without :
    (k : String) (l : List String) → contains k l ≡ true → suc (length (without k l)) ≡ length l
unfolding contains without
length-without k [] h = cc
length-without k (x ∷ l) h = ground (arith, length-without k l)

contains-without-false :
    (j k : String) (l : List String) → contains j l ≡ false → contains j (without k l) ≡ false
unfolding contains without
contains-without-false j k [] h = refl
contains-without-false j k (x ∷ l) h = ground (arith, contains-without-false j k l)

pub Distinct-without : (k : String) (l : List String) → Distinct l → Distinct (without k l)
unfolding without
Distinct-without k [] d = d
Distinct-without k (x ∷ l) d =
    ground (arith, Distinct-without k l d.1, contains-without-false x k l d.0)

pub Distinct-snoc :
    (k : String) (l : List String) → contains k l ≡ false → Distinct l → Distinct (l ++ k ∷ [])
unfolding contains
Distinct-snoc k [] h d = (refl, tt)
Distinct-snoc k (x ∷ l) h d =
    ground (arith, Distinct-snoc k l, contains-append x l (k ∷ []), eq_iff x k, eq_iff k x)

module _ {ℓ} {V : Type ℓ} where
  pub keys-remove : (k : String) (d : List (String × V)) → keys (remove k d) ≡ without k (keys d)
  unfolding remove without
  keys-remove k [] = refl
  keys-remove k ((j, v) ∷ d) = ground (arith, keys-remove k d)

  pub keys-insert_old :
      (k : String) (v : V) (d : List (String × V))
      → contains k (keys d) ≡ true
      → keys (insert k v d) ≡ keys d
  unfolding insert contains
  keys-insert_old k v [] h = cc
  keys-insert_old k v ((j, w) ∷ d) h = ground (arith, keys-insert_old k v d)

  pub insert_new :
      (k : String) (v : V) (d : List (String × V))
      → contains k (keys d) ≡ false
      → insert k v d ≡ d ++ (k, v) ∷ []
  unfolding insert contains
  insert_new k v [] h = refl
  insert_new k v ((j, w) ∷ d) h = ground (arith, insert_new k v d)

  pub keys-append : (d e : List (String × V)) → keys (d ++ e) ≡ keys d ++ keys e
  keys-append [] e = refl
  keys-append ((k, v) ∷ d) e = ap (◌∷◌ k) (keys-append d e)

  pub lookup-insert :
      (k j : String) (v : V) (d : List (String × V))
      → lookup j (insert k v d) ≡ (if str_eq k j then some v else lookup j d)
  unfolding lookup insert
  lookup-insert k j v [] = refl
  lookup-insert k j v ((i, w) ∷ d) =
      ground (arith, eq_iff k j, eq_iff i k, eq_iff i j, lookup-insert k j v d)

  pub lookup-remove_ne :
      (k j : String) (d : List (String × V))
      → str_eq k j ≡ false
      → lookup j (remove k d) ≡ lookup j d
  unfolding lookup remove
  lookup-remove_ne k j [] h = refl
  lookup-remove_ne k j ((i, w) ∷ d) h =
      ground (arith, eq_iff k j, eq_iff i k, eq_iff i j, lookup-remove_ne k j d)

  -- A key is among the keys exactly when a lookup finds a value.
  pub contains_of_lookup :
      (k : String) (d : List (String × V)) {v : V}
      → lookup k d ≡ some v
      → contains k (keys d) ≡ true
  unfolding lookup contains
  contains_of_lookup k [] {v} h = cc
  contains_of_lookup k ((i, w) ∷ d) {v} h = ground (arith, contains_of_lookup k d {v = v})

  pub absent_of_lookup :
      (k : String) (d : List (String × V)) → lookup k d ≡ none → contains k (keys d) ≡ false
  unfolding lookup contains
  absent_of_lookup k [] h = refl
  absent_of_lookup k ((i, w) ∷ d) h = ground (arith, absent_of_lookup k d)

  pub lookup_of_contains :
      (k : String) (d : List (String × V))
      → contains k (keys d) ≡ true
      → (v : V) × (lookup k d ≡ some v)
  lookup_of_contains k d h = elim (Option-cases (lookup k d)) [
    | inl miss ↦ absurd (ground (arith, absent_of_lookup k d miss))
    | inr found ↦ found
  ]

  pub length-keys : (d : List (String × V)) → length (keys d) ≡ length d
  length-keys [] = refl
  length-keys ((k, v) ∷ d) = ap suc (length-keys d)

  pub length-remove :
      (k : String) (d : List (String × V))
      → contains k (keys d) ≡ true
      → suc (length (remove k d)) ≡ length d
  unfolding remove contains
  length-remove k [] h = cc
  length-remove k ((j, w) ∷ d) h = ground (arith, length-remove k d)

  pub length-insert_old :
      (k : String) (v : V) (d : List (String × V))
      → contains k (keys d) ≡ true
      → length (insert k v d) ≡ length d
  unfolding insert contains
  length-insert_old k v [] h = cc
  length-insert_old k v ((j, w) ∷ d) h = ground (arith, length-insert_old k v d)

  -- A property of every entry, kept by the changes.
  pub All-insert {κ} :
      (P : String × V → Type κ) (k : String) (v : V) (d : List (String × V))
      → ((j : String) → str_eq j k ≡ true → P (j, v))
      → All P d
      → All P (insert k v d)
  unfolding insert
  All-insert P k v [] h a = (h k (str_eq_self k), tt)
  All-insert P k v ((j, w) ∷ d) h a = elim (Bool-cases (str_eq j k)) [
    | inl same ↦ rw same (h j same, a.1)
    | inr other ↦ rw other (a.0, All-insert P k v d h a.1)
  ]

  pub All-remove {κ} :
      (P : String × V → Type κ) (k : String) (d : List (String × V)) → All P d → All P (remove k d)
  unfolding remove
  All-remove P k [] a = a
  All-remove P k ((j, w) ∷ d) a = elim (Bool-cases (str_eq j k)) [
    | inl same ↦ rw same a.1
    | inr other ↦ rw other (a.0, All-remove P k d a.1)
  ]

  pub All-lookup {κ} :
      (P : String × V → Type κ) (k : String) (d : List (String × V)) {v : V}
      → All P d
      → lookup k d ≡ some v
      → P (k, v)
  unfolding lookup
  All-lookup P k [] {v} a h = cc
  All-lookup P k ((j, w) ∷ d) {v} a h = elim (Bool-cases (str_eq j k)) [
    | inl same ↦
        let e : ◌≡◌ {A = String × V} (j, w) (k, v) = ground (arith, eq_iff j k) in subst P e a.0
    | inr other ↦ All-lookup P k d a.1 (ground arith)
  ]

pub contains-without_keep :
    (j k : String) (l : List String) → contains j (without k l) ≡ true → contains j l ≡ true
unfolding contains without
contains-without_keep j k [] h = cc
contains-without_keep j k (x ∷ l) h = ground (arith, contains-without_keep j k l)

pub contains-snoc :
    (j k : String) (l : List String)
    → contains j (l ++ k ∷ []) ≡ (if str_eq k j then true else contains j l)
unfolding contains
contains-snoc j k l = ground (arith, contains-append j l (k ∷ []))

-- Two lists of distinct keys with the same members are of one length.
length-subset :
    (xs ys : List String)
    → Distinct xs
    → ((j : String) → contains j xs ≡ true → contains j ys ≡ true)
    → length xs ≤ length ys
unfolding contains
length-subset [] ys d h = omega arith
length-subset (x ∷ xs) ys d h =
    let here = h x (ground (arith, str_eq_self x)) in
    let rest =
      length-subset xs (without x ys) d.1
        (λ j m. ground (arith, contains-without_ne j x ys, eq_iff x j, d.0, h j)) in
    omega (arith, rest, length-without x ys here)

pub length-same :
    (xs ys : List String)
    → Distinct xs
    → Distinct ys
    → ((j : String) → contains j xs ≡ contains j ys)
    → length xs ≡ length ys
length-same xs ys dx dy h = omega (
  arith,
  length-subset xs ys dx (λ j m. ground (arith, h j)),
  length-subset ys xs dy (λ j m. ground (arith, h j)),
)

pub contains-insert {ℓ} :
    {V : Type ℓ} (j k : String) (v : V) (d : List (String × V))
    → contains j (keys (insert k v d)) ≡ (if str_eq k j then true else contains j (keys d))
unfolding contains insert
contains-insert j k v [] = ground arith
contains-insert j k v ((i, w) ∷ d) =
    ground (arith, contains-insert j k v d, eq_iff i k, eq_iff k j, eq_iff i j)
