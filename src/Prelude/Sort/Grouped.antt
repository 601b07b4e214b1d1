-- ===== src/Prelude/Sort/Grouped.antt =====
-- Sorting by a group first: the group's elements in front, each part sorted by itself.
use mathlib.Core.Path.{◌≡◌, refl, sym, ap, ◌∙◌}
use mathlib.Core.Bool.{Bool, true, false, not}
use mathlib.Core.List.{List, [], ◌∷◌, ◌++◌}
use mathlib.Core.Logic.{inl, inr}
use pecunia.Prelude.Tests.{if◌then◌else◌, Bool-cases}
use pecunia.Prelude.Lists.{All, filter}
use pecunia.Prelude.Sort.{insert_by, sort_by}

module _ {A : Type 0} (before within : A → A → Bool) (p : A → Bool)
    (front : (x y : A) → p x ≡ true → p y ≡ false → before x y ≡ true)
    (behind : (x y : A) → p x ≡ false → p y ≡ true → before x y ≡ false)
    (same : (x y : A) → p x ≡ p y → before x y ≡ within x y) where
  abbrev Inside : List A → Type 0
  Inside xs = All (λ x. p x ≡ true) xs

  abbrev Outside : List A → Type 0
  Outside xs = All (λ x. p x ≡ false) xs

  put_first :
      (x : A) (ys zs : List A)
      → p x ≡ true
      → Inside ys
      → Outside zs
      → insert_by before x (ys ++ zs) ≡ insert_by within x ys ++ zs
  put_first x [] [] h i o = refl
  put_first x [] (z ∷ zs) h i o = rw (front x z h o.0) refl
  put_first x (y ∷ ys) zs h i o =
      step (within x y) (same x y (h ∙ sym i.0)) (put_first x ys zs h i.1 o)
    where
      step :
          (b : Bool)
          → before x y ≡ b
          → insert_by before x (ys ++ zs) ≡ insert_by within x ys ++ zs
          → (if before x y then x ∷ y ∷ (ys ++ zs) else y ∷ insert_by before x (ys ++ zs))
            ≡ (if b then x ∷ y ∷ ys else y ∷ insert_by within x ys) ++ zs
      step true e ih = rw e refl
      step false e ih = rw e (ap (λ l. y ∷ l) ih)

  put_last_alone :
      (x : A) (zs : List A)
      → p x ≡ false
      → Outside zs
      → insert_by before x zs ≡ insert_by within x zs
  put_last_alone x [] h o = refl
  put_last_alone x (z ∷ zs) h o = rw (same x z (h ∙ sym o.0), put_last_alone x zs h o.1) refl

  put_last :
      (x : A) (ys zs : List A)
      → p x ≡ false
      → Inside ys
      → Outside zs
      → insert_by before x (ys ++ zs) ≡ ys ++ insert_by within x zs
  put_last x [] zs h i o = put_last_alone x zs h o
  put_last x (y ∷ ys) zs h i o = rw (behind x y h i.0) (ap (λ l. y ∷ l) (put_last x ys zs h i.1 o))

  All-insert_by :
      (c : Bool) (x : A) (ys : List A)
      → p x ≡ c
      → All (λ y. p y ≡ c) ys
      → All (λ y. p y ≡ c) (insert_by within x ys)
  All-insert_by c x [] h i = (h, i)
  All-insert_by c x (y ∷ ys) h i = step (within x y) (All-insert_by c x ys h i.1)
    where
      step :
          (b : Bool)
          → All (λ z. p z ≡ c) (insert_by within x ys)
          → All (λ z. p z ≡ c) (if b then x ∷ y ∷ ys else y ∷ insert_by within x ys)
      step true r = (h, i)
      step false r = (i.0, r)

  All-sort_by :
      (c : Bool) (xs : List A) → All (λ y. p y ≡ c) xs → All (λ y. p y ≡ c) (sort_by within xs)
  All-sort_by c [] i = i
  All-sort_by c (x ∷ xs) i = All-insert_by c x (sort_by within xs) i.0 (All-sort_by c xs i.1)

  abbrev inside : List A → List A
  inside xs = filter p xs

  abbrev outside : List A → List A
  outside xs = filter (λ x. not (p x)) xs

  All-inside : (xs : List A) → Inside (inside xs)
  All-inside [] = _
  All-inside (x ∷ xs) = step (p x) refl (All-inside xs)
    where
      step :
          (b : Bool)
          → p x ≡ b
          → Inside (inside xs)
          → Inside (if b then x ∷ inside xs else inside xs)
      step true e r = (e, r)
      step false e r = r

  All-outside : (xs : List A) → Outside (outside xs)
  All-outside [] = _
  All-outside (x ∷ xs) = step (p x) refl (All-outside xs)
    where
      step :
          (b : Bool)
          → p x ≡ b
          → Outside (outside xs)
          → Outside (if not b then x ∷ outside xs else outside xs)
      step true e r = r
      step false e r = (e, r)

  -- Each group is sorted by itself, and the first one stands in front.
  pub sort_by_groups :
      (xs : List A) → sort_by before xs ≡ sort_by within (inside xs) ++ sort_by within (outside xs)
  sort_by_groups [] = refl
  sort_by_groups (x ∷ xs) = elim (Bool-cases (p x)) [
    | inl e ↦
        ap (λ l. insert_by before x l) (sort_by_groups xs)
        ∙ put_first x (sort_by within (inside xs)) (sort_by within (outside xs)) e
            (All-sort_by true (inside xs) (All-inside xs))
            (All-sort_by false (outside xs) (All-outside xs))
        ∙ rw e refl
    | inr e ↦
        ap (λ l. insert_by before x l) (sort_by_groups xs)
        ∙ put_last x (sort_by within (inside xs)) (sort_by within (outside xs)) e
            (All-sort_by true (inside xs) (All-inside xs))
            (All-sort_by false (outside xs) (All-outside xs))
        ∙ rw e refl
  ]

-- Where every element may stand in front of every other, nothing moves.
pub sort_by_constant : {A : Type 0} → (xs : List A) → sort_by (λ (x y : A). true) xs ≡ xs
sort_by_constant [] = refl
sort_by_constant (x ∷ xs) =
    ap (λ l. insert_by (λ (a b : _). true) x l) (sort_by_constant xs) ∙ front x xs
  where
    front : {A : Type 0} → (x : A) (xs : List A) → insert_by (λ (a b : A). true) x xs ≡ x ∷ xs
    front x [] = refl
    front x (y ∷ ys) = refl
