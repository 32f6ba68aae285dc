-- ===== src/Prelude/Singles.antt =====
-- What a filter that leaves one element says of the list.
use mathlib.Core.Path.{◌≡◌, refl, ap, sym, ◌∙◌}
use mathlib.Core.Logic.{inl, inr}
use mathlib.Core.Bool.{Bool, true, false, ◌&&◌}
use mathlib.Core.List.{List, [], ◌∷◌, ◌++◌}
use native.Mathlib.Omega.{arith}
use aurora_ai_native.Prelude.Tests.{Bool-cases}
use aurora_ai_native.Prelude.Lists.{filter, All}

module _ {ℓ} {A : Type ℓ} where
  -- One element of a list passes a test, and no other place of the list does.
  pub record IsSingle (p : A → Bool) (xs : List A) (a : A) : Type ℓ where
    pub before : List A
    pub after : List A
    pub split : xs ≡ before ++ (a ∷ after)
    pub passes : p a ≡ true
    pub none_before : All (λ x. p x ≡ false) before
    pub none_after : All (λ x. p x ≡ false) after

  pub filter-filter :
      (p q : A → Bool) (xs : List A) → filter p (filter q xs) ≡ filter (λ x. q x && p x) xs
  filter-filter p q [] = refl
  filter-filter p q (x ∷ xs) = elim (Bool-cases (q x)) [
    | inl kept ↦ rw (kept, filter-filter p q xs) refl
    | inr dropped ↦ rw dropped (filter-filter p q xs)
  ]

  filter-empty : (p : A → Bool) (xs : List A) → filter p xs ≡ [] → All (λ x. p x ≡ false) xs
  filter-empty p [] h = tt
  filter-empty p (x ∷ xs) h = elim (Bool-cases (p x)) [
    | inl kept ↦ let e = rw kept at h in ground arith
    | inr dropped ↦ (dropped, filter-empty p xs (rw dropped at h))
  ]

  pub filter-IsSingle :
      (p : A → Bool) (xs : List A) (a : A) → filter p xs ≡ a ∷ [] → IsSingle p xs a
  filter-IsSingle p [] a h = ground arith
  filter-IsSingle p (x ∷ xs) a h = elim (Bool-cases (p x)) [
    | inl kept ↦
        let e = rw kept at h in
        let same : x ≡ a = ground arith in
        let rest : filter p xs ≡ [] = ground arith in
        record {
          before = [];
          after = xs;
          split = ap (λ y. y ∷ xs) same;
          passes = ap p (sym same) ∙ kept;
          none_before = tt;
          none_after = filter-empty p xs rest;
        }
    | inr dropped ↦
        let s = filter-IsSingle p xs a (rw dropped at h) in
        record {
          before = x ∷ s.before;
          after = s.after;
          split = ap (λ ys. x ∷ ys) s.split;
          passes = s.passes;
          none_before = (dropped, s.none_before);
          none_after = s.none_after;
        }
  ]
