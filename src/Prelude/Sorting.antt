-- ===== src/Prelude/Sorting.antt =====
-- `[...new Set(values)]` and `sort` with a comparator, which is a stable sort.
use Prim.Native.Nat.{suc}
use mathlib.Core.Path.{◌≡◌, refl}
use mathlib.Core.Bool.{Bool, not, ◌&&◌}
use mathlib.Core.List.{List, [], ◌∷◌, Perm}
use mathlib.Core.List.Perm
use mathlib.Core.Logic.{inl, inr}
use native.Mathlib.Omega.{arith}
use aurora_ai_native.Prelude.Tests.{if◌then◌else◌, Bool-cases}
use aurora_ai_native.Prelude.Lists.{filter, all, length}

module _ {ℓ} {A : Type ℓ} where
  -- `leb x y` says that the comparator does not put `x` behind `y`.
  unfoldable pub insert_sorted : (A → A → Bool) → A → List A → List A
  insert_sorted leb x [] = x ∷ []
  insert_sorted leb x (y ∷ ys) = if leb x y then x ∷ y ∷ ys else y ∷ insert_sorted leb x ys

  unfoldable pub sort_by : (A → A → Bool) → List A → List A
  unfolding insert_sorted
  sort_by leb [] = []
  sort_by leb (x ∷ xs) = insert_sorted leb x (sort_by leb xs)

  -- Each value once, in the order of first occurrence.
  unfoldable pub unique_by : (A → A → Bool) → List A → List A
  unique_by same [] = []
  unique_by same (x ∷ xs) = x ∷ filter (λ y. not (same x y)) (unique_by same xs)

module _ {ℓ} {A : Type ℓ} where
  pub insert_sorted-perm :
      (leb : A → A → Bool) (x : A) (xs : List A) → Perm (insert_sorted leb x xs) (x ∷ xs)
  unfolding insert_sorted
  insert_sorted-perm leb x [] = Perm.refl _
  insert_sorted-perm leb x (y ∷ ys) = elim (Bool-cases (leb x y)) [
    | inl le ↦ rw le (Perm.refl _)
    | inr gt ↦ rw gt (Perm.trans (Perm.cons y (insert_sorted-perm leb x ys)) (Perm.swap _ _ _))
  ]

  pub sort_by-perm : (leb : A → A → Bool) (xs : List A) → Perm (sort_by leb xs) xs
  unfolding sort_by
  sort_by-perm leb [] = Perm.refl _
  sort_by-perm leb (x ∷ xs) =
      Perm.trans (insert_sorted-perm leb x (sort_by leb xs)) (Perm.cons x (sort_by-perm leb xs))

module _ {ℓ} {A : Type ℓ} (p : A → Bool) where
  all-insert_sorted :
      (leb : A → A → Bool) (x : A) (xs : List A)
      → all p (insert_sorted leb x xs) ≡ (p x && all p xs)
  unfolding insert_sorted
  all-insert_sorted leb x [] = refl
  all-insert_sorted leb x (y ∷ ys) = ground (arith, all-insert_sorted leb x ys)

  -- A test of every element does not see the order.
  pub all-sort_by : (leb : A → A → Bool) (xs : List A) → all p (sort_by leb xs) ≡ all p xs
  unfolding sort_by
  all-sort_by leb [] = refl
  all-sort_by leb (x ∷ xs) =
      ground (arith, all-insert_sorted leb x (sort_by leb xs), all-sort_by leb xs)

module _ {ℓ} {A : Type ℓ} where
  length-insert_sorted :
      (leb : A → A → Bool) (x : A) (xs : List A) → length (insert_sorted leb x xs) ≡ suc (length xs)
  unfolding insert_sorted
  length-insert_sorted leb x [] = refl
  length-insert_sorted leb x (y ∷ ys) = ground (arith, length-insert_sorted leb x ys)

  pub length-sort_by : (leb : A → A → Bool) (xs : List A) → length (sort_by leb xs) ≡ length xs
  unfolding sort_by
  length-sort_by leb [] = refl
  length-sort_by leb (x ∷ xs) =
      omega (arith, length-insert_sorted leb x (sort_by leb xs), length-sort_by leb xs)
