-- ===== src/Base/Order/Laws.antt =====
-- A sorted list holds the same elements.
use infer_twin.Base.Order.{insert_sorted, sorted}
use infer_twin.Base.Tests.{Bool-cases}
use mathlib.Core.Bool.{Bool}
use mathlib.Core.List.Perm
use mathlib.Core.List.{List, [], ◌∷◌, Perm}
use mathlib.Core.Logic.{inl, inr}

module _ {ℓ} {A : Type ℓ} (le : A → A → Bool) where
  insert_sorted-Perm : (x : A) (l : List A) → Perm (insert_sorted le x l) (x ∷ l)
  unfolding insert_sorted
  insert_sorted-Perm x [] = Perm.rfl
  insert_sorted-Perm x (y ∷ l) = elim (Bool-cases (le x y)) [
    | inl before ↦ rw before Perm.rfl
    | inr after ↦ rw after (Perm.trans (Perm.cons y (insert_sorted-Perm x l)) (Perm.swap x y l))
  ]

  pub sorted-Perm : (l : List A) → Perm (sorted le l) l
  unfolding sorted
  sorted-Perm [] = Perm.rfl
  sorted-Perm (x ∷ l) =
      Perm.trans (insert_sorted-Perm x (sorted le l)) (Perm.cons x (sorted-Perm l))
