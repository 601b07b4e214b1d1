-- ===== src/Charts/Trend.antt =====
-- The direction of a series and of the same series backwards.
use pecunia.Prelude.{
  suc, ◌≡◌, refl, sym, ap, ap₂, ◌∙◌, ◌↔◌, Option, none, some, List, [], ◌∷◌, ◌++◌, reverse, arith,
  length, last?, ltb, if◌then◌else◌,
}
use pecunia.Prelude.Int.{◌<ℤ◌}
use mathlib.Core.List.{reverse-append}
use pecunia.Charts.{ChartPoint, TrendDirection, up, down, flat, direction_of, trend_direction}

last-snoc {ℓ} : {A : Type ℓ} (xs : List A) (a : A) → last? (xs ++ (a ∷ [])) ≡ some a
last-snoc [] a = refl
last-snoc (x ∷ []) a = refl
last-snoc (x ∷ y ∷ xs) a = last-snoc (y ∷ xs) a

abbrev pub first? {ℓ} : {A : Type ℓ} → List A → Option A
first? [] = none
first? (x ∷ xs) = some x

abbrev pub opposite : TrendDirection → TrendDirection
opposite up = down
opposite down = up
opposite flat = flat

-- The direction between the ends, where there are any.
abbrev pub between : Option ChartPoint → Option ChartPoint → TrendDirection
between none last = flat
between (some first) none = flat
between (some first) (some last) = direction_of first.value_minor last.value_minor

-- The direction is decided by the two ends.
trend_direction_ends :
    (points : List ChartPoint) → trend_direction points ≡ between (first? points) (last? points)
unfolding trend_direction
trend_direction_ends [] = refl
trend_direction_ends (p ∷ []) = ground arith
trend_direction_ends (p ∷ q ∷ points) = choose (last? (q ∷ points))
  where
    choose :
        (o : Option ChartPoint)
        → (if ltb (suc (suc (length points))) 2
            then flat
            else elim o [ none ↦ flat | some last ↦ direction_of p.value_minor last.value_minor ])
          ≡ between (some p) o
    choose none = ground arith
    choose (some r) = ground arith

first-append {ℓ} :
    {A : Type ℓ} (xs ys : List A) (a : A) → first? xs ≡ some a → first? (xs ++ ys) ≡ some a
first-append [] ys a e = absurd (none_some e)
  where
    none_some : none ≡ some a → ⊥
    none_some q = cc
first-append (x ∷ xs) ys a e = e

last_of {ℓ} : {A : Type ℓ} (x : A) (xs : List A) → (a : A) × (last? (x ∷ xs) ≡ some a)
last_of x [] = (x, refl)
last_of x (y ∷ xs) = last_of y xs

first-reverse {ℓ} : {A : Type ℓ} (x : A) (xs : List A) → first? (reverse (x ∷ xs)) ≡ last? (x ∷ xs)
first-reverse x [] = refl
first-reverse x (y ∷ xs) =
    let (a, e) = last_of y xs in
    ap first? (reverse-append (x ∷ []) (y ∷ xs))
    ∙ first-append (reverse (y ∷ xs)) (x ∷ []) a (first-reverse y xs ∙ e)
    ∙ sym e

last-reverse {ℓ} : {A : Type ℓ} (x : A) (xs : List A) → last? (reverse (x ∷ xs)) ≡ some x
last-reverse x xs = ap last? (reverse-append (x ∷ []) xs) ∙ last-snoc (reverse xs) x

between-flip :
    (p : ChartPoint) (o : Option ChartPoint) → between o (some p) ≡ opposite (between (some p) o)
between-flip p none = refl
between-flip p (some q) = ground arith

-- A series that is read backwards trends the opposite way, and a flat one stays flat.
pub trend_direction-reverse :
    (points : List ChartPoint)
    → trend_direction (reverse points) ≡ opposite (trend_direction points)
unfolding trend_direction
trend_direction-reverse [] = refl
trend_direction-reverse (p ∷ points) =
    trend_direction_ends (reverse (p ∷ points))
    ∙ ap₂ between (first-reverse p points) (last-reverse p points)
    ∙ between-flip p (last? (p ∷ points))
    ∙ ap opposite (sym (trend_direction_ends (p ∷ points)))

-- A series with at least two points trends up just when its last value is greater than its first,
-- and down just when it is smaller.
pub trend_direction_iff :
    (first last : ChartPoint) (middle : List ChartPoint)
    → ((trend_direction (first ∷ (middle ++ (last ∷ []))) ≡ up)
        ↔ (first.value_minor <ℤ last.value_minor))
      × ((trend_direction (first ∷ (middle ++ (last ∷ []))) ≡ down)
          ↔ (last.value_minor <ℤ first.value_minor))
trend_direction_iff first last middle =
    let e : trend_direction (first ∷ (middle ++ (last ∷ [])))
        ≡ direction_of first.value_minor last.value_minor =
      trend_direction_ends (first ∷ (middle ++ (last ∷ [])))
      ∙ ap (between (some first)) (last-snoc (first ∷ middle) last) in
    rw e ((λ h. ground arith, λ h. ground arith), (λ h. ground arith, λ h. ground arith))
