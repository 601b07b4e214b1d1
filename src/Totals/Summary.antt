-- ===== src/Totals/Summary.antt =====
-- The summary has one entry for each currency that occurs, in the order of first occurrence, and
-- its total is the sum over exactly that currency's items.
use pecunia.Prelude.{
  String, ◌≡◌, refl, sym, ap, ap₂, ◌∙◌, inl, inr, Bool, true, false, not, ◌&&◌, ◌||◌, List, [], ◌∷◌,
  ◌++◌, map, append-nil, append_assoc, arith, str_eq, str_eq_iff, filter, if◌then◌else◌, Bool-cases,
}
use pecunia.Prelude.Int.{ℤ, pos, ◌+ℤ◌, int_laws, +ℤ_assoc, zero-add_ℤ}
use text.Mathlib.TextPositions.{eq_refl as str_eq_refl}
use pecunia.Prelude.Dict.{Dict, lookup, lookup-insert, or_else, is_some, member, distinct}
use pecunia.Totals.{Running, CurrencyTotal, entry, add_item, add_items, sum_by_currency}

filter-filter {ℓ} :
    {A : Type ℓ} (p q r : A → Bool) (xs : List A)
    → ((x : A) → r x ≡ (p x && q x))
    → filter p (filter q xs) ≡ filter r xs
filter-filter p q r [] h = refl
filter-filter p q r (x ∷ xs) h = ground (arith, h x, filter-filter p q r xs h)

filter-ext {ℓ} :
    {A : Type ℓ} (p q : A → Bool) (xs : List A) → ((x : A) → p x ≡ q x) → filter p xs ≡ filter q xs
filter-ext p q [] h = refl
filter-ext p q (x ∷ xs) h = ground (arith, h x, filter-ext p q xs h)

filter_all {ℓ} : {A : Type ℓ} (xs : List A) → filter (λ x. true) xs ≡ xs
filter_all [] = refl
filter_all (x ∷ xs) = ap (λ r. x ∷ r) (filter_all xs)

member-append :
    (k x : String) (xs : List String) → member k (xs ++ x ∷ []) ≡ (member k xs || str_eq x k)
member-append k x [] = ground arith
member-append k x (y ∷ xs) = ground (arith, member-append k x xs)

abbrev fresh : List String → String → Bool
fresh order code = not (member code order)

abbrev opened_order : String → Running → List String
opened_order code r = if is_some (lookup code r.totals) then r.order else r.order ++ code ∷ []

split_sum :
    (same : Bool) (s a rest : ℤ)
    → (if same then s +ℤ a else s) +ℤ rest ≡ s +ℤ (if same then a +ℤ rest else rest)
split_sum true s a rest = +ℤ_assoc s a rest
split_sum false s a rest = refl

-- Opening a code puts it behind the others, unless it is there.
extend :
    (code : String) (codes : List String) (r : Running)
    → is_some (lookup code r.totals) ≡ member code r.order
    → (opened_order code r) ++ filter (fresh (opened_order code r)) codes
      ≡ r.order ++ filter (fresh r.order) (code ∷ filter (λ y. not (str_eq code y)) codes)
extend code codes r h = elim (Bool-cases (member code r.order)) [
  | inl e ↦
      rw (h, e)
        (ap (λ (s : List String). r.order ++ s)
          (sym (
            filter-filter (fresh r.order) (λ y. not (str_eq code y)) (fresh r.order) codes
              (λ x. ground (arith, str_eq_iff code x, e)))))
  | inr e ↦
      rw (h, e)
        (append_assoc r.order (code ∷ []) _
          ∙ ap (λ (s : List String). r.order ++ code ∷ s)
              (sym (
                filter-filter (fresh r.order) (λ y. not (str_eq code y))
                  (fresh (r.order ++ code ∷ [])) codes
                  (λ x. ground (arith, member-append x code r.order)))))
]

module _ {ℓ} {T : Type ℓ} (amount : T → ℤ) (currency : T → String) where
  -- The sum of the items of one currency.
  pub total_of : String → List T → ℤ
  total_of code [] = pos 0
  total_of code (item ∷ items) =
      if str_eq (currency item) code
      then amount item +ℤ total_of code items
      else total_of code items

  abbrev sum_at : String → Dict ℤ → ℤ
  sum_at code totals = or_else (pos 0) (lookup code totals)

  sum_at-add_item :
      (item : T) (r : Running) (code : String)
      → sum_at code (add_item amount currency item r).totals ≡ (
          if str_eq (currency item) code
          then sum_at code r.totals +ℤ amount item
          else sum_at code r.totals)
  sum_at-add_item item r code = rw (lookup-insert (currency item) code) (
      ground (
        arith,
        str_eq_iff (currency item) code,
        lookup-insert (currency item) (currency item) (pos 0) r.totals,
        lookup-insert (currency item) code (pos 0) r.totals,
        str_eq_refl (currency item),
      ))

  sum_at-add_items :
      (items : List T) (r : Running) (code : String)
      → sum_at code (add_items amount currency items r).totals
        ≡ sum_at code r.totals +ℤ total_of code items
  unfolding add_items total_of
  sum_at-add_items [] r code = omega int_laws
  sum_at-add_items (item ∷ items) r code =
      sum_at-add_items items (add_item amount currency item r) code
      ∙ ap (λ (s : ℤ). s +ℤ total_of code items) (sum_at-add_item item r code)
      ∙ split_sum (str_eq (currency item) code) (sum_at code r.totals) (amount item)
          (total_of code items)

  -- Exactly the codes in `order` have a sum.
  abbrev IsTracked : Running → Type 0
  IsTracked r = (code : String) → is_some (lookup code r.totals) ≡ member code r.order

  add_item-IsTracked :
      (item : T) (r : Running) → IsTracked r → IsTracked (add_item amount currency item r)
  add_item-IsTracked item r h code = rw (lookup-insert (currency item) code) (
      ground (
        arith,
        h code,
        h (currency item),
        str_eq_iff (currency item) code,
        member-append code (currency item) r.order,
        lookup-insert (currency item) code (pos 0) r.totals,
      ))

  order-add_item :
      (item : T) (r : Running)
      → (add_item amount currency item r).order ≡ opened_order (currency item) r
  order-add_item item r = ground arith

  add_items-order :
      (items : List T) (r : Running)
      → IsTracked r
      → (add_items amount currency items r).order
        ≡ r.order ++ filter (fresh r.order) (distinct (map currency items))
  unfolding add_items
  add_items-order [] r h = sym (append-nil r.order)
  add_items-order (item ∷ items) r h =
      add_items-order items (add_item amount currency item r) (add_item-IsTracked item r h)
      ∙ ap (λ (o : List String). o ++ filter (fresh o) (distinct (map currency items)))
          (order-add_item item r)
      ∙ extend (currency item) (distinct (map currency items)) r (h (currency item))

  -- The summary is, for each distinct currency in the order of its first item, the sum of exactly
  -- that currency's amounts.
  pub sum_by_currency_lem :
      (items : List T)
      → sum_by_currency amount currency items
        ≡ map (λ code. entry code (total_of code items)) (distinct (map currency items))
  unfolding sum_by_currency lookup
  sum_by_currency_lem items =
      let r = add_items amount currency items (record { order = []; totals = [] }) in
      let order : r.order ≡ distinct (map currency items) =
        add_items-order items (record { order = []; totals = [] }) (λ code. refl)
        ∙ filter_all (distinct (map currency items)) in
      rw order (map_ext (distinct (map currency items)))
    where
      map_ext :
          (codes : List String)
          → map
              (λ code. entry code (
                sum_at code
                  (add_items amount currency items (record { order = []; totals = [] })).totals))
              codes
            ≡ map (λ code. entry code (total_of code items)) codes
      map_ext [] = refl
      map_ext (code ∷ codes) =
          ap₂ (λ (s : ℤ) (rest : List CurrencyTotal). entry code s ∷ rest)
            (sum_at-add_items items (record { order = []; totals = [] }) code ∙ zero-add_ℤ _)
            (map_ext codes)
