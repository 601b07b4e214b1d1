-- ===== src/Totals.antt =====
-- Sums per currency for the list screens' summaries (web/src/features/_shared/totals.ts).
pub mod Summary
mod Tests
use pecunia.Prelude.{◌+◌, String, List, [], ◌∷◌, ◌++◌, map, if◌then◌else◌}
use pecunia.Prelude.Int.{ℤ, pos, ◌+ℤ◌}
use pecunia.Prelude.Dict.{Dict, lookup, insert, or_else, is_some}

pub record CurrencyTotal : Type 0 where
  pub currency : String
  pub total_minor : ℤ

abbrev pub entry : String → ℤ → CurrencyTotal
entry currency total_minor = record { currency = currency; total_minor = total_minor }

-- The loop's variables: the codes in the order of their first item, and the sums.
pub record Running : Type 0 where
  pub order : List String
  pub totals : Dict ℤ

module _ {ℓ} {T : Type ℓ} (amount : T → ℤ) (currency : T → String) where
  -- `if (!totals.has(code)) { … }`
  abbrev pub opened : String → Running → Running
  opened code r =
      if is_some (lookup code r.totals)
      then r
      else record { order = r.order ++ code ∷ []; totals = insert code (pos 0) r.totals }

  abbrev pub add_item : T → Running → Running
  add_item item r =
      let code = currency item in
      let r' = opened code r in
      record {
        order = r'.order;
        totals = insert code (or_else (pos 0) (lookup code r'.totals) +ℤ amount item) r'.totals;
      }

  pub add_items : List T → Running → Running
  add_items [] r = r
  add_items (item ∷ items) r = add_items items (add_item item r)

  pub sum_by_currency : List T → List CurrencyTotal
  unfolding add_items
  sum_by_currency items =
      let r = add_items items (record { order = []; totals = [] }) in
      map (λ code. entry code (or_else (pos 0) (lookup code r.totals))) r.order
