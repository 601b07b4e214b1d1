-- ===== src/Forms/Small/Sent.antt =====
-- What the forms with one amount send.
use pecunia.Prelude.{
  ℕ, String, ◌≡◌, refl, sym, ap, ◌∙◌, ◌↔◌, Bool, true, false, Option, none, some, str_eq,
  if◌then◌else◌,
}
use pecunia.Money.{Intl}
use pecunia.Money.Amount.{amount_to_minor}
use pecunia.Hooks.{Mutation}
use pecunia.Forms.{Submission, stays, refused, sends, trimmed, with_amount_error}
use pecunia.Forms.Small.{
  with_read, ValuationForm, valuation_by, valuation_submission, PriceForm, price_by,
  price_submission, ItemForm, item_by, item_submission, BudgetForm, budget_by, budget_submission,
}

-- The submission sends the mutation exactly when the field is not empty and the amount is read,
-- and it is the mutation of that amount.
abbrev pub SendsRead : Submission → String → Option ℕ → (ℕ → Mutation) → Type 0
SendsRead submission required amount mutation =
    (m : Mutation)
    → (submission ≡ sends m)
      ↔ ((str_eq required "" ≡ false) × ((n : ℕ) × (amount ≡ some n) × (m ≡ mutation n)))

with_read-sends :
    (mutation : ℕ → Mutation) (m : Mutation) (o : Option ℕ)
    → with_read mutation o ≡ sends m
    → (n : ℕ) × (o ≡ some n) × (m ≡ mutation n)
with_read-sends mutation m none e = absurd (clash e)
  where
    clash : refused (with_amount_error "Enter a valid amount.") ≡ sends m → ⊥
    clash z = cc
with_read-sends mutation m (some n) e = (n, refl, inj e)
  where
    inj : sends (mutation n) ≡ sends m → m ≡ mutation n
    inj z = cc

sends_read :
    (required : String) (amount : Option ℕ) (mutation : ℕ → Mutation)
    → SendsRead
        (if str_eq required "" then stays else with_read mutation amount)
        required
        amount
        mutation
sends_read required amount mutation m = (
  λ e. forth (str_eq required "") refl e,
  λ r. rw r.0 (ap (with_read mutation) r.1.1 ∙ ap sends (sym r.1.2)),
)
  where
    forth :
        (b : Bool)
        → str_eq required "" ≡ b
        → (if b then stays else with_read mutation amount) ≡ sends m
        → (str_eq required "" ≡ false) × ((n : ℕ) × (amount ≡ some n) × (m ≡ mutation n))
    forth true h e = absurd (clash e)
      where
        clash : stays ≡ sends m → ⊥
        clash z = cc
    forth false h e = (h, with_read-sends mutation m amount e)

-- A valuation and a price are sent exactly with a date and an amount that is read, a part and a
-- budget with a name that is not blank and an amount that is read; each is read in the currency of
-- its asset, holding, project or budget, and what is sent is the form's own mutation of it.
pub forms-SendsRead :
    (intl : Intl) (asset_id portfolio_id holding_id project_id currency : String)
    (v : ValuationForm) (p : PriceForm) (i : ItemForm) (b : BudgetForm)
    → SendsRead
        (valuation_submission intl asset_id currency v)
        v.as_of
        (amount_to_minor intl v.value currency)
        (valuation_by asset_id v)
      × SendsRead
          (price_submission intl portfolio_id holding_id currency p)
          p.as_of
          (amount_to_minor intl p.price currency)
          (price_by portfolio_id holding_id p)
      × SendsRead
          (item_submission intl project_id currency i)
          (trimmed i.name)
          (amount_to_minor intl i.amount currency)
          (item_by project_id i i.item_id)
      × SendsRead
          (budget_submission intl b)
          (trimmed b.name)
          (amount_to_minor intl b.amount b.currency)
          (budget_by b b.budget_id)
unfolding valuation_submission price_submission item_submission budget_submission
forms-SendsRead intl asset_id portfolio_id holding_id project_id currency v p i b = (
  sends_read v.as_of _ _,
  sends_read p.as_of _ _,
  sends_read (trimmed i.name) _ _,
  sends_read (trimmed b.name) _ _,
)
