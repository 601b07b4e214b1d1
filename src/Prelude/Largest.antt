-- ===== src/Prelude/Largest.antt =====
-- `xs.reduce((top, x) => x.value > top.value ? x : top)`: the first element with the greatest
-- value.
use pecunia.Prelude.Int.{ℤ, ltb_ℤ, ◌≤ℤ◌}
use pecunia.Prelude.Tests.{if◌then◌else◌}
use pecunia.Prelude.Lists.{In}
use mathlib.Core.Path.{◌≡◌, refl, sym, ◌∙◌, subst}
use mathlib.Core.Logic.{◌⊎◌, inl, inr}
use mathlib.Core.Option.{Option, none, some}
use mathlib.Core.List.{List, [], ◌∷◌}
use native.Mathlib.Omega.{arith}

module _ {A : Type 0} (value : A → ℤ) where
  abbrev pub bigger : A → A → A
  bigger top x = if ltb_ℤ (value top) (value x) then x else top

  unfoldable pub largest_of : A → List A → A
  largest_of top [] = top
  largest_of top (x ∷ xs) = largest_of (bigger top x) xs

  -- On an empty list `reduce` throws: `none`.
  abbrev pub reduce_largest : List A → Option A
  reduce_largest [] = none
  reduce_largest (x ∷ xs) = some (largest_of x xs)

  bigger-cases : (x y : A) → (bigger x y ≡ x) ⊎ (bigger x y ≡ y)
  bigger-cases x y = ground arith

  bigger-ge : (x y : A) → (value x ≤ℤ value (bigger x y)) × (value y ≤ℤ value (bigger x y))
  bigger-ge x y = ground arith

  pub largest_of-In : (x : A) (xs : List A) → In (largest_of x xs) (x ∷ xs)
  unfolding largest_of
  largest_of-In x [] = inl refl
  largest_of-In x (y ∷ ys) = place (bigger-cases x y) (largest_of-In (bigger x y) ys)
    where
      place :
          (bigger x y ≡ x) ⊎ (bigger x y ≡ y)
          → In (largest_of (bigger x y) ys) (bigger x y ∷ ys)
          → In (largest_of (bigger x y) ys) (x ∷ y ∷ ys)
      place c (inr m) = inr (inr m)
      place (inl e) (inl q) = inl (q ∙ e)
      place (inr e) (inl q) = inr (inl (q ∙ e))

  pub largest_of-ge : (x : A) (xs : List A) → value x ≤ℤ value (largest_of x xs)
  unfolding largest_of
  largest_of-ge x [] = omega arith
  largest_of-ge x (y ∷ ys) = omega (arith, bigger-ge x y, largest_of-ge (bigger x y) ys)

  pub largest_of-ge_all :
      (x : A) (xs : List A) (a : A) → In a (x ∷ xs) → value a ≤ℤ value (largest_of x xs)
  unfolding largest_of
  largest_of-ge_all x xs a (inl e) =
      subst (λ z. value z ≤ℤ value (largest_of x xs)) (sym e) (largest_of-ge x xs)
  largest_of-ge_all x (y ∷ ys) a (inr (inl e)) =
      subst (λ z. value z ≤ℤ value (largest_of (bigger x y) ys)) (sym e)
        (omega (arith, bigger-ge x y, largest_of-ge (bigger x y) ys))
  largest_of-ge_all x (y ∷ ys) a (inr (inr m)) = largest_of-ge_all (bigger x y) ys a (inr m)
  largest_of-ge_all x [] a (inr m) = absurd m
