-- ===== src/Prelude/Sort.antt =====
-- `Array.prototype.sort` with a comparator, which is stable.
pub mod Grouped
use mathlib.Core.Bool.{Bool}
use mathlib.Core.List.{List, [], ◌∷◌}
use pecunia.Prelude.Tests.{if◌then◌else◌}
use pecunia.Prelude.Int.{ℤ, pos, leb_ℤ}

module _ {A : Type 0} (before : A → A → Bool) where
  -- In front of the first element that it may stand before.
  abbrev pub insert_by : A → List A → List A
  insert_by x [] = x ∷ []
  insert_by x (y ∷ ys) = let rest = insert_by x ys in if before x y then x ∷ y ∷ ys else y ∷ rest

  abbrev pub sort_by : List A → List A
  sort_by [] = []
  sort_by (x ∷ xs) = insert_by x (sort_by xs)

-- An element stays in front of another where the comparator is not positive.
abbrev pub stays : {A : Type 0} → (A → A → ℤ) → A → A → Bool
stays compare x y = leb_ℤ (compare x y) (pos 0)

abbrev pub sort : {A : Type 0} → (A → A → ℤ) → List A → List A
sort compare xs = sort_by (stays compare) xs
