-- ===== src/Dashboard/BalanceSeries.antt =====
-- An account's balance history (web/src/features/dashboard/balanceSeries.ts).
mod Tests
use mathlib.Core.List.{reverse-append}
use pecunia.Prelude.{◌+◌, ◌-◌, String, ◌≡◌, refl, sym, ap, ap₂, ◌∙◌, List, [], ◌∷◌, ◌++◌, reverse}
use pecunia.Prelude.Int.{ℤ, pos, ◌+ℤ◌, ◌-ℤ◌, int_laws, +ℤ_comm, +ℤ_assoc}
use pecunia.Charts.{ChartPoint, point}

pub record TransactionLite : Type 0 where
  pub occurred_on : String
  pub amount_minor : ℤ

-- The loop: a point for each transaction, newest first.
walk_back : ℤ → List TransactionLite → List ChartPoint
walk_back running_balance [] = []
walk_back running_balance (t ∷ ts) =
    point t.occurred_on running_balance ∷ walk_back (running_balance -ℤ t.amount_minor) ts

pub build_balance_series : ℤ → List TransactionLite → List ChartPoint
unfolding walk_back
build_balance_series current_balance_minor transactions_newest_first =
    reverse (walk_back current_balance_minor transactions_newest_first)

-- The sum of all amounts.
pub total_amount : List TransactionLite → ℤ
total_amount [] = pos 0
total_amount (t ∷ ts) = t.amount_minor +ℤ total_amount ts

-- A ledger: from an opening balance, the balance after each transaction, oldest first.
pub ledger : ℤ → List TransactionLite → List ChartPoint
ledger opening [] = []
ledger opening (t ∷ ts) =
    let after = opening +ℤ t.amount_minor in point t.occurred_on after ∷ ledger after ts

ledger-append :
    (opening : ℤ) (ts : List TransactionLite) (t : TransactionLite)
    → ledger opening (ts ++ t ∷ [])
      ≡ ledger opening ts ++ point t.occurred_on (opening +ℤ total_amount ts +ℤ t.amount_minor) ∷ []
unfolding ledger total_amount
ledger-append opening [] t = ap (λ (b : ℤ). point t.occurred_on b ∷ []) (omega int_laws)
ledger-append opening (s ∷ ts) t =
    ap (λ r. point s.occurred_on (opening +ℤ s.amount_minor) ∷ r)
      (ledger-append (opening +ℤ s.amount_minor) ts t
        ∙ ap (λ (b : ℤ). ledger (opening +ℤ s.amount_minor) ts ++ point t.occurred_on b ∷ [])
            (omega int_laws))

total_amount-append :
    (ts : List TransactionLite) (t : TransactionLite)
    → total_amount (ts ++ t ∷ []) ≡ total_amount ts +ℤ t.amount_minor
unfolding total_amount
total_amount-append [] t = omega int_laws
total_amount-append (s ∷ ts) t =
    ap (λ (n : ℤ). s.amount_minor +ℤ n) (total_amount-append ts t)
    ∙ sym (+ℤ_assoc s.amount_minor (total_amount ts) t.amount_minor)

total_amount-reverse : (ts : List TransactionLite) → total_amount (reverse ts) ≡ total_amount ts
unfolding total_amount
total_amount-reverse [] = refl
total_amount-reverse (t ∷ ts) =
    ap total_amount (reverse-append (t ∷ []) ts)
    ∙ total_amount-append (reverse ts) t
    ∙ ap (λ (n : ℤ). n +ℤ t.amount_minor) (total_amount-reverse ts)
    ∙ +ℤ_comm (total_amount ts) t.amount_minor

-- Walking the newest-first list back from the current balance gives the ledger that starts at the
-- current balance less all the amounts and runs forward over the transactions, oldest first.
pub build_balance_series_lem :
    (current : ℤ) (ts : List TransactionLite)
    → build_balance_series current ts ≡ ledger (current -ℤ total_amount ts) (reverse ts)
unfolding build_balance_series total_amount ledger
build_balance_series_lem current [] = refl
build_balance_series_lem current (t ∷ ts) =
    reverse-append (point t.occurred_on current ∷ []) (walk_back (current -ℤ t.amount_minor) ts)
    ∙ ap (λ (r : List ChartPoint). r ++ point t.occurred_on current ∷ [])
        (build_balance_series_lem (current -ℤ t.amount_minor) ts)
    ∙ ap₂ (λ (o b : ℤ). ledger o (reverse ts) ++ point t.occurred_on b ∷ []) (omega int_laws)
        (omega int_laws
          ∙ ap (λ (n : ℤ). current -ℤ (t.amount_minor +ℤ total_amount ts) +ℤ n +ℤ t.amount_minor)
              (sym (total_amount-reverse ts)))
    ∙ sym (ledger-append (current -ℤ (t.amount_minor +ℤ total_amount ts)) (reverse ts) t)
    ∙ ap (ledger (current -ℤ (t.amount_minor +ℤ total_amount ts)))
        (sym (reverse-append (t ∷ []) ts))
