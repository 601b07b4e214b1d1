-- ===== src/Totals/Tests.antt =====
-- A run of the summary, and its theorem at concrete items.
use pecunia.Prelude.{String, ◌≡◌, refl, List, [], ◌∷◌, map}
use pecunia.Prelude.Int.{ℤ, pos, negsuc, ◌+ℤ◌}
use pecunia.Prelude.Dict.{lookup, insert, distinct}
use pecunia.Totals.{entry, sum_by_currency}
use pecunia.Totals.Summary.{total_of, sum_by_currency_lem}

abbrev items : List (String × ℤ)
items = ("EUR", pos 500) ∷ ("USD", negsuc 99) ∷ ("EUR", pos 250) ∷ []

summary_run :
    sum_by_currency (λ i. i.1) (λ i. i.0) items
    ≡ entry "EUR" (pos 750) ∷ entry "USD" (negsuc 99) ∷ []
unfolding sum_by_currency lookup insert ◌+ℤ◌
summary_run = refl

sum_by_currency_example :
    sum_by_currency (λ i. i.1) (λ i. i.0) items
    ≡ map
        (λ code. entry code (total_of (λ i. i.1) (λ i. i.0) code items))
        (distinct (map (λ i. i.0) items))
sum_by_currency_example = sum_by_currency_lem (λ i. i.1) (λ i. i.0) items
