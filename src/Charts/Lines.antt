-- ===== src/Charts/Lines.antt =====
-- What a line of the forecast chart draws from the rows of each kind.
use pecunia.Prelude.{
  arith, suc, ◌-◌, String, ◌≡◌, refl, sym, ap, ◌∙◌, ◌≢◌, Option, none, some, List, [], ◌∷◌, ◌++◌,
  map, append_assoc, last?,
}
use pecunia.Prelude.Int.{ℤ}
use pecunia.Charts.{
  ChartPoint, point, ForecastChartPoint, MergedForecastPoint, history_row, projected_row, bridged,
  bridge_last, length, take,
}

abbrev drawn_at : String → Option ℤ → List ChartPoint
drawn_at date none = []
drawn_at date (some v) = point date v ∷ []

-- The points that a line with the given key goes through: a missing value is a gap.
abbrev pub line : (MergedForecastPoint → Option ℤ) → List MergedForecastPoint → List ChartPoint
line key [] = []
line key (r ∷ rows) = drawn_at r.date (key r) ++ line key rows

pub line-append :
    (key : MergedForecastPoint → Option ℤ) (xs ys : List MergedForecastPoint)
    → line key (xs ++ ys) ≡ line key xs ++ line key ys
line-append key [] ys = refl
line-append key (r ∷ xs) ys =
    ap (λ l. drawn_at r.date (key r) ++ l) (line-append key xs ys)
    ∙ sym (append_assoc (drawn_at r.date (key r)) (line key xs) (line key ys))

abbrev pub of_projected : (ForecastChartPoint → ℤ) → ForecastChartPoint → ChartPoint
of_projected value p = point p.date (value p)

-- Keys that the projected rows have, and the history rows have not.
pub line-projected :
    (key : MergedForecastPoint → Option ℤ) (value : ForecastChartPoint → ℤ)
    → ((p : ForecastChartPoint) → key (projected_row p) ≡ some (value p))
    → (projected : List ForecastChartPoint)
    → line key (map projected_row projected) ≡ map (of_projected value) projected
line-projected key value h [] = refl
line-projected key value h (p ∷ projected) =
    rw (h p) (ap (λ l. point p.date (value p) ∷ l) (line-projected key value h projected))

pub line-missing {ℓ} :
    {A : Type ℓ} (key : MergedForecastPoint → Option ℤ) (make : A → MergedForecastPoint)
    → ((a : A) → key (make a) ≡ none)
    → (xs : List A) → line key (map make xs) ≡ []
line-missing key make h [] = refl
line-missing key make h (x ∷ xs) = rw (h x) (line-missing key make h xs)

pub line-history :
    (history : List ChartPoint) → line (λ r. r.history_value) (map history_row history) ≡ history
line-history [] = refl
line-history (p ∷ history) = ap (λ l. p ∷ l) (line-history history)

-- The bridge of a longer list is further on.
bridge_last-cons :
    (r s : MergedForecastPoint) (rest : List MergedForecastPoint)
    → bridge_last (r ∷ s ∷ rest) ≡ r ∷ bridge_last (s ∷ rest)
unfolding bridge_last
bridge_last-cons r s rest = move (last? (s ∷ rest)) refl (last_some s rest)
  where
    last_some :
        (s : MergedForecastPoint) (rest : List MergedForecastPoint) → last? (s ∷ rest) ≢ none
    last_some s [] e = cc
    last_some s (t ∷ rest) e = last_some t rest e

    move :
        (o : Option MergedForecastPoint)
        → last? (s ∷ rest) ≡ o
        → o ≢ none
        → bridge_last (r ∷ s ∷ rest) ≡ r ∷ bridge_last (s ∷ rest)
    move none e k = absurd (k refl)
    move (some t) e k =
        let one_more : suc (suc (length rest)) - 1 ≡ suc (suc (length rest) - 1) = omega arith in
        rw (e, bridge_last) (ap (λ n. take n (r ∷ s ∷ rest) ++ (bridged t ∷ [])) one_more)

bridge_last-one : (r : MergedForecastPoint) → bridge_last (r ∷ []) ≡ bridged r ∷ []
unfolding bridge_last
bridge_last-one r = refl

-- The history line goes through the whole history, bridged or not.
pub line-bridge_history :
    (p : ChartPoint) (history : List ChartPoint)
    → line (λ r. r.history_value) (bridge_last (map history_row (p ∷ history))) ≡ p ∷ history
line-bridge_history p [] = ap (line (λ r. r.history_value)) (bridge_last-one (history_row p))
line-bridge_history p (q ∷ history) =
    ap (line (λ r. r.history_value))
      (bridge_last-cons (history_row p) (history_row q) (map history_row history))
    ∙ ap (λ l. p ∷ l) (line-bridge_history q history)

-- Where the bridge is: the last point of the history.
abbrev pub bridge_point : List ChartPoint → List ChartPoint
bridge_point history = elim (last? history) [ none ↦ [] | some p ↦ p ∷ [] ]

pub line-bridge_projected :
    (p : ChartPoint) (history : List ChartPoint)
    → line (λ r. r.projected_value) (bridge_last (map history_row (p ∷ history)))
      ≡ bridge_point (p ∷ history)
line-bridge_projected p [] = ap (line (λ r. r.projected_value)) (bridge_last-one (history_row p))
line-bridge_projected p (q ∷ history) =
    ap (line (λ r. r.projected_value))
      (bridge_last-cons (history_row p) (history_row q) (map history_row history))
    ∙ line-bridge_projected q history

-- A key that neither a history row nor a bridge has.
pub line-bridge_missing :
    (key : MergedForecastPoint → Option ℤ)
    → ((p : ChartPoint) → key (history_row p) ≡ none)
    → ((p : ChartPoint) → key (bridged (history_row p)) ≡ none)
    → (p : ChartPoint) (history : List ChartPoint)
    → line key (bridge_last (map history_row (p ∷ history))) ≡ []
line-bridge_missing key h k p [] = ap (line key) (bridge_last-one (history_row p)) ∙ rw (k p) refl
line-bridge_missing key h k p (q ∷ history) =
    ap (line key) (bridge_last-cons (history_row p) (history_row q) (map history_row history))
    ∙ rw (h p) (line-bridge_missing key h k q history)

-- The dates of the rows.
abbrev pub row_dates : List MergedForecastPoint → List String
row_dates rows = map (λ r. r.date) rows

pub row_dates-append :
    (xs ys : List MergedForecastPoint) → row_dates (xs ++ ys) ≡ row_dates xs ++ row_dates ys
row_dates-append [] ys = refl
row_dates-append (x ∷ xs) ys = ap (λ l. x.date ∷ l) (row_dates-append xs ys)

pub row_dates-history :
    (history : List ChartPoint) → row_dates (map history_row history) ≡ map (λ p. p.date) history
row_dates-history [] = refl
row_dates-history (p ∷ history) = ap (λ l. p.date ∷ l) (row_dates-history history)

pub row_dates-projected :
    (projected : List ForecastChartPoint)
    → row_dates (map projected_row projected) ≡ map (λ p. p.date) projected
row_dates-projected [] = refl
row_dates-projected (p ∷ projected) = ap (λ l. p.date ∷ l) (row_dates-projected projected)

pub row_dates-bridge :
    (p : ChartPoint) (history : List ChartPoint)
    → row_dates (bridge_last (map history_row (p ∷ history))) ≡ map (λ p. p.date) (p ∷ history)
row_dates-bridge p [] = ap row_dates (bridge_last-one (history_row p))
row_dates-bridge p (q ∷ history) =
    ap row_dates (bridge_last-cons (history_row p) (history_row q) (map history_row history))
    ∙ ap (λ l. p.date ∷ l) (row_dates-bridge q history)
