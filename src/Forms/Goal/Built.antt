-- ===== src/Forms/Goal/Built.antt =====
-- The goal that the code builds is one that the form describes.
use pecunia.Prelude.{
  true≢false, ℕ, String, ◌≡◌, refl, sym, ap, ◌∙◌, ◌≢◌, ◌⊎◌, inl, inr, Bool, true, false, not, ◌&&◌,
  Option, none, some, [], ◌∷◌, str_eq, Bool-cases, Option-cases,
}
use pecunia.Prelude.Int.{ℤ}
use pecunia.Prelude.Text.{Text, trim}
use pecunia.Money.{Intl}
use pecunia.Hooks.Goals.{GoalSourceKind, account, portfolio, net_worth, manual}
use pecunia.Forms.{or_null}
use pecunia.Forms.Transaction.{find_account}
use pecunia.Forms.Goal.{
  GoalForm, find_portfolio, effective_currency, currency_by, account_currency, portfolio_currency,
  source_by, source_id, unless_null, create_payload, update_payload, mutation_by, is_manual,
  is_empty,
}
use pecunia.Forms.Goal.Sent.{Progress, no_progress, progress}
use pecunia.Forms.Goal.Description.{
  CurrencyOf, of_account, of_no_account, of_portfolio, of_no_portfolio, of_net_worth, of_manual,
  TextOrNull, empty_text, given_text, SourceOf, account_id, portfolio_id, net_worth_source,
  manual_source, OrLeftOut, left_out, sent, ProgressOf, of_source, of_blank, of_amount, Body,
  created, edited,
}

pub currency_by-CurrencyOf :
    (form : GoalForm) (kind : GoalSourceKind) → CurrencyOf form kind (currency_by kind form)
currency_by-CurrencyOf form account =
    elim (Option-cases (find_account form.account_id form.accounts)) [
      | inl e ↦ rw e (of_no_account e)
      | inr e ↦ rw e.1 (of_account e.0 e.1)
    ]
currency_by-CurrencyOf form portfolio =
    elim (Option-cases (find_portfolio form.portfolio_id form.portfolios)) [
      | inl e ↦ rw e (of_no_portfolio e)
      | inr e ↦ rw e.1 (of_portfolio e.0 e.1)
    ]
currency_by-CurrencyOf form net_worth = of_net_worth
currency_by-CurrencyOf form manual = of_manual

-- There is one such currency.
pub CurrencyOf-currency_by :
    (form : GoalForm) (kind : GoalSourceKind) (c : String)
    → CurrencyOf form kind c
    → currency_by kind form ≡ c
CurrencyOf-currency_by form account c (of_account a e) =
    ap (λ o. account_currency o form.free_currency) e
CurrencyOf-currency_by form account c (of_no_account e) =
    ap (λ o. account_currency o form.free_currency) e
CurrencyOf-currency_by form portfolio c (of_portfolio p e) =
    ap (λ o. portfolio_currency o form.free_currency) e
CurrencyOf-currency_by form portfolio c (of_no_portfolio e) =
    ap (λ o. portfolio_currency o form.free_currency) e
CurrencyOf-currency_by form net_worth c of_net_worth = refl
CurrencyOf-currency_by form manual c of_manual = refl

or_null-TextOrNull : (s : String) → TextOrNull s (or_null s)
or_null-TextOrNull s = elim (Bool-cases (str_eq s "")) [
  | inl e ↦ rw e (empty_text e)
  | inr e ↦ rw e (given_text e)
]

source_by-SourceOf :
    (form : GoalForm) (kind : GoalSourceKind) → SourceOf form kind (source_by kind form)
source_by-SourceOf form account = account_id (or_null-TextOrNull form.account_id)
source_by-SourceOf form portfolio = portfolio_id (or_null-TextOrNull form.portfolio_id)
source_by-SourceOf form net_worth = net_worth_source
source_by-SourceOf form manual = manual_source

unless_null-OrLeftOut : {A : Type 0} (o : Option A) → OrLeftOut o (unless_null o)
unless_null-OrLeftOut none = left_out
unless_null-OrLeftOut (some a) = sent a

pub mutation_by-Body :
    (form : GoalForm) (target : ℕ) (current : Option ℤ) (goal_id : Option String)
    → Body form target
        (effective_currency form)
        current
        goal_id
        (mutation_by form goal_id target current)
mutation_by-Body form target current none = created (create_payload form target current) (record {
  name = refl;
  target_minor = refl;
  same_currency = refl;
  kind = refl;
  date = or_null form.target_date;
  date_of = or_null-TextOrNull form.target_date;
  date_sent = unless_null-OrLeftOut (or_null form.target_date);
  source = source_id form;
  source_of = source_by-SourceOf form form.source_kind;
  source_sent = unless_null-OrLeftOut (source_id form);
  progress_sent = unless_null-OrLeftOut current;
})
mutation_by-Body form target current (some id) =
    edited id (update_payload form target current) (record {
      name = refl;
      target_minor = refl;
      same_currency = refl;
      kind = refl;
      date = or_null form.target_date;
      date_of = or_null-TextOrNull form.target_date;
      date_sent = refl;
      source = source_id form;
      source_of = source_by-SourceOf form form.source_kind;
      source_sent = refl;
      progress_sent = refl;
    })

manual_lem : (kind : GoalSourceKind) → is_manual kind ≡ true → kind ≡ manual
manual_lem manual h = refl
manual_lem account h = cc
manual_lem portfolio h = cc
manual_lem net_worth h = cc

is_empty_lem : (t : Text) → is_empty t ≡ true → t ≡ []
is_empty_lem [] h = refl
is_empty_lem (c ∷ t) h = cc

parts_true : (a b : Bool) → (a && not b) ≡ true → (a ≡ true) × (b ≡ false)
parts_true true false h = (refl, refl)
parts_true true true h = cc
parts_true false b h = cc

parts_false : (a b : Bool) → (a && not b) ≡ false → (a ≡ false) ⊎ (b ≡ true)
parts_false false b h = inl refl
parts_false true true h = inr refl
parts_false true false h = cc

-- What the code counts as given is what the description does.
pub to_ProgressOf :
    (intl : Intl) (form : GoalForm) (o : Option ℤ)
    → Progress intl form o
    → ProgressOf intl form (effective_currency form) o
to_ProgressOf intl form o (no_progress g) =
    elim (parts_false (is_manual form.source_kind) (is_empty (trim form.manual_current)) g) [
      | inl e ↦ of_source (λ q. true≢false (sym (ap is_manual q) ∙ e))
      | inr e ↦ of_blank (is_empty_lem (trim form.manual_current) e)
    ]
to_ProgressOf intl form o (progress g n e) =
    let p = parts_true (is_manual form.source_kind) (is_empty (trim form.manual_current)) g in
    of_amount (manual_lem form.source_kind p.0) (λ q. true≢false (sym (ap is_empty q) ∙ p.1)) n e

pub from_ProgressOf :
    (intl : Intl) (form : GoalForm) (o : Option ℤ)
    → ProgressOf intl form (effective_currency form) o
    → Progress intl form o
from_ProgressOf intl form o (of_source n) = no_progress (no_manual form.source_kind n)
  where
    no_manual :
        (k : GoalSourceKind)
        → k ≢ manual
        → (is_manual k && not (is_empty (trim form.manual_current))) ≡ false
    no_manual manual h = absurd (h refl)
    no_manual account h = refl
    no_manual portfolio h = refl
    no_manual net_worth h = refl
from_ProgressOf intl form o (of_blank e) = no_progress (rw e (no_text (is_manual form.source_kind)))
  where
    no_text : (b : Bool) → (b && false) ≡ false
    no_text true = refl
    no_text false = refl
from_ProgressOf intl form o (of_amount k h n e) =
    progress (rw k (filled (trim form.manual_current) h)) n e
  where
    filled : (t : Text) → t ≢ [] → not (is_empty t) ≡ true
    filled [] q = absurd (q refl)
    filled (c ∷ t) q = refl
