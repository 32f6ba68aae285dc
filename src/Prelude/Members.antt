-- ===== src/Prelude/Members.antt =====
-- Where the members of a filtered, sorted, mapped or searched list come from.
use mathlib.Core.Path.{◌≡◌, refl, ap, ◌∙◌}
use mathlib.Core.Logic.{◌⊎◌, inl, inr}
use mathlib.Core.Bool.{Bool, true}
use mathlib.Core.Option.{some}
use mathlib.Core.List.{List, [], ◌∷◌, map, Memᴰ}
use native.Mathlib.Omega.{arith}
use aurora_ai_native.Prelude.Tests.{Bool-cases}
use aurora_ai_native.Prelude.Lists.{filter, find?, any}
use aurora_ai_native.Prelude.Sorting.{insert_sorted, sort_by}

module _ {ℓ} {A : Type ℓ} where
  pub no_member {κ} : {C : Type κ} {x : A} → Memᴰ x [] → C
  no_member m = elim m [ ]

  pub mem-cons : (y : A) (ys : List A) (x : A) → Memᴰ x (y ∷ ys) → (x ≡ y) ⊎ Memᴰ x ys
  mem-cons y ys x (Memᴰ.head e) = inl e
  mem-cons y ys x (Memᴰ.tail n) = inr n

  pub mem-filter :
      (p : A → Bool) (xs : List A) (x : A) → Memᴰ x (filter p xs) → Memᴰ x xs × (p x ≡ true)
  mem-filter p [] x m = elim m [ ]
  mem-filter p (y ∷ ys) x m = elim (Bool-cases (p y)) [
    | inl kept ↦ elim (mem-cons y (filter p ys) x (rw kept at m)) [
      | inl e ↦ (Memᴰ.head e, rw e kept)
      | inr n ↦ let (k, e) = mem-filter p ys x n in (Memᴰ.tail k, e)
    ]
    | inr dropped ↦ let (n, e) = mem-filter p ys x (rw dropped at m) in (Memᴰ.tail n, e)
  ]

  pub mem-insert_sorted :
      (le : A → A → Bool) (y : A) (xs : List A) (x : A)
      → Memᴰ x (insert_sorted le y xs)
      → Memᴰ x (y ∷ xs)
  unfolding insert_sorted
  mem-insert_sorted le y [] x m = m
  mem-insert_sorted le y (z ∷ zs) x m = elim (Bool-cases (le y z)) [
    | inl first ↦ rw first at m
    | inr later ↦ elim (mem-cons z (insert_sorted le y zs) x (rw later at m)) [
      | inl e ↦ Memᴰ.tail (Memᴰ.head e)
      | inr n ↦ elim (mem-cons y zs x (mem-insert_sorted le y zs x n)) [
        | inl e ↦ Memᴰ.head e
        | inr k ↦ Memᴰ.tail (Memᴰ.tail k)
      ]
    ]
  ]

  pub mem-sort_by : (le : A → A → Bool) (xs : List A) (x : A) → Memᴰ x (sort_by le xs) → Memᴰ x xs
  unfolding sort_by
  mem-sort_by le [] x m = m
  mem-sort_by le (y ∷ ys) x m =
      elim (mem-cons y (sort_by le ys) x (mem-insert_sorted le y (sort_by le ys) x m)) [
        | inl e ↦ Memᴰ.head e
        | inr n ↦ Memᴰ.tail (mem-sort_by le ys x n)
      ]

  pub mem-find? :
      (p : A → Bool) (xs : List A) (x : A) → find? p xs ≡ some x → Memᴰ x xs × (p x ≡ true)
  mem-find? p [] x h = ground arith
  mem-find? p (y ∷ ys) x h = elim (Bool-cases (p y)) [
    | inl found ↦
        let e = rw found at h in
        let same : x ≡ y = ground arith in (Memᴰ.head same, ap p same ∙ found)
    | inr other ↦ let (m, e) = mem-find? p ys x (rw other at h) in (Memᴰ.tail m, e)
  ]

  pub mem-any : (p : A → Bool) (xs : List A) → any p xs ≡ true → (x : A) × Memᴰ x xs × (p x ≡ true)
  mem-any p [] h = ground arith
  mem-any p (y ∷ ys) h = elim (Bool-cases (p y)) [
    | inl found ↦ (y, Memᴰ.head refl, found)
    | inr other ↦ let (x, m, e) = mem-any p ys (rw other at h) in (x, Memᴰ.tail m, e)
  ]

module _ {ℓ κ} {A : Type ℓ} {B : Type κ} where
  pub mem-map :
      (f : A → B) (xs : List A) (y : B) → Memᴰ y (map f xs) → (x : A) × Memᴰ x xs × (y ≡ f x)
  mem-map f [] y m = elim m [ ]
  mem-map f (x ∷ xs) y m = elim (mem-cons (f x) (map f xs) y m) [
    | inl e ↦ (x, Memᴰ.head refl, e)
    | inr n ↦ let (w, k, e) = mem-map f xs y n in (w, Memᴰ.tail k, e)
  ]
