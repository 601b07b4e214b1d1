-- ===== src/Forms/Transaction/Resubmitted.antt =====
-- An edit that changes nothing.
use pecunia.Prelude.{
  ℕ, suc, ◌+◌, String, ◌≡◌, refl, ap, ◌∙◌, Bool, true, false, ◌||◌, Option, none, some, List, arith,
  str_eq, leb,
}
use pecunia.Prelude.Int.{ℤ, pos, negsuc, neg_ℤ, abs_ℤ, ltb_ℤ}
use pecunia.Money.{Intl}
use pecunia.Money.Amount.{amount_to_minor, minor_to_amount_input}
use pecunia.Money.Amount.RoundTrip.{amount_to_minor-minor_to_amount_input}
use pecunia.Hooks.Accounts.{AccountOut}
use pecunia.Hooks.Transactions.{
  TransactionOut, UpdateTransactionPayload, transaction_mutation, update_transaction,
}
use pecunia.Forms.{sends, or_null, trimmed}
use pecunia.Forms.Transaction.{
  TransactionForm, find_account, currency_or_usd, form_currency, or_else, direction_of, open_form,
  signed_by, mutation_by, with_magnitude, is_incomplete, transaction_submission,
}

-- The sign that the form's direction gives the magnitude back.
signed_by-abs : (n : ℤ) → signed_by (direction_of n) (abs_ℤ n) ≡ n
unfolding neg_ℤ
signed_by-abs (pos n) = rw (not_below n) (ap pos (omega arith))
  where
    not_below : (m : ℕ) → ltb_ℤ (pos m) (pos 0) ≡ false
    not_below m = ground arith
signed_by-abs (negsuc n) = rw (below n, positive n) (ap negsuc (omega arith))
  where
    below : (m : ℕ) → ltb_ℤ (negsuc m) (pos 0) ≡ true
    below m = ground arith

    positive : (m : ℕ) → leb (0 + suc m) 0 ≡ false
    positive m = ground arith

-- An optional id that is not the empty string comes back.
abbrev pub IsNonEmpty : Option String → Type 0
IsNonEmpty none = Unit
IsNonEmpty (some s) = str_eq s "" ≡ false

pub or_null-or_else : (o : Option String) → IsNonEmpty o → or_null (or_else o "") ≡ o
or_null-or_else none h = refl
or_null-or_else (some s) h = rw h refl

-- The values of a transaction that an edit sends back.
abbrev pub own_payload : TransactionOut → UpdateTransactionPayload
own_payload t = record {
  account_id = some t.account_id;
  category_id = some t.category_id;
  contact_id = some t.contact_id;
  project_id = some t.project_id;
  amount_minor = some t.amount_minor;
  currency = some t.currency;
  description = some t.description;
  occurred_on = some t.occurred_on;
}

-- A transaction that the form can show as it is: it is on one of the accounts, in that account's
-- currency; its text is trimmed; and no text or id is empty.
pub record IsShown (accounts : List AccountOut) (t : TransactionOut) : Type 0 where
  pub own_account : AccountOut
  pub found : find_account t.account_id accounts ≡ some own_account
  pub same_currency : own_account.currency ≡ t.currency
  pub trimmed_text : trimmed t.description ≡ t.description
  pub set_account : str_eq t.account_id "" ≡ false
  pub set_text : str_eq t.description "" ≡ false
  pub set_date : str_eq t.occurred_on "" ≡ false
  pub set_category : IsNonEmpty t.category_id
  pub set_contact : IsNonEmpty t.contact_id
  pub set_project : IsNonEmpty t.project_id

-- An update by its values.
abbrev payload_of :
    TransactionOut
    → ℤ
    → String
    → String
    → Option String
    → Option String
    → Option String
    → UpdateTransactionPayload
payload_of t amount_minor currency description category_id contact_id project_id = record {
  account_id = some t.account_id;
  category_id = some category_id;
  contact_id = some contact_id;
  project_id = some project_id;
  amount_minor = some amount_minor;
  currency = some currency;
  description = some description;
  occurred_on = some t.occurred_on;
}

payload_of-own :
    (t : TransactionOut) (amount_minor : ℤ) (currency description : String)
    (category_id contact_id project_id : Option String)
    → amount_minor ≡ t.amount_minor
    → currency ≡ t.currency
    → description ≡ t.description
    → category_id ≡ t.category_id
    → contact_id ≡ t.contact_id
    → project_id ≡ t.project_id
    → payload_of t amount_minor currency description category_id contact_id project_id
      ≡ own_payload t
payload_of-own t a c d g k p e1 e2 e3 e4 e5 e6 = rw (e1, e2, e3, e4, e5, e6) refl

-- A complete form with a readable amount sends it.
submission_complete :
    (intl : Intl) (form : TransactionForm) (magnitude : ℕ)
    → is_incomplete form ≡ false
    → amount_to_minor intl form.amount (form_currency form) ≡ some magnitude
    → transaction_submission intl form
      ≡ sends (mutation_by form form.transaction (signed_by form.direction magnitude))
unfolding transaction_submission
submission_complete intl form magnitude h e = rw h (ap (with_magnitude form) e)

pub no_part : (a b c : Bool) → a ≡ false → b ≡ false → c ≡ false → (a || (b || c)) ≡ false
no_part a b c e f g = rw (e, f, g) refl

module _ (intl : Intl) (accounts : List AccountOut) (t : TransactionOut)
    (locked_account_id default_account_id : Option String) (today : String)
    (shown : IsShown accounts t) where
  abbrev opened : TransactionForm
  opened = open_form intl (some t) accounts locked_account_id default_account_id today

  opened_currency : currency_or_usd (find_account t.account_id accounts) ≡ t.currency
  opened_currency = ap currency_or_usd shown.found ∙ shown.same_currency

  -- A transaction that is on one of the accounts, in that account's currency, with a trimmed text
  -- and no empty text or id, is sent back as it is by an edit that changes nothing: its account,
  -- category, contact, project, signed amount, currency, text and date.
  pub transaction_submission-open_form :
      transaction_submission intl opened
      ≡ sends (transaction_mutation (update_transaction t.id (own_payload t)))
  unfolding open_form
  transaction_submission-open_form =
      submission_complete intl opened (abs_ℤ t.amount_minor)
        (no_part (str_eq t.account_id "") (str_eq (trimmed t.description) "")
          (str_eq t.occurred_on "") shown.set_account
          (ap (λ s. str_eq s "") shown.trimmed_text ∙ shown.set_text) shown.set_date)
        (ap (amount_to_minor intl (minor_to_amount_input intl t.amount_minor t.currency))
            opened_currency
          ∙ amount_to_minor-minor_to_amount_input intl t.amount_minor t.currency)
      ∙ ap (λ p. sends (transaction_mutation (update_transaction t.id p)))
          (payload_of-own t _ _ _ _ _ _ (signed_by-abs t.amount_minor) opened_currency
            shown.trimmed_text (or_null-or_else t.category_id shown.set_category)
            (or_null-or_else t.contact_id shown.set_contact)
            (or_null-or_else t.project_id shown.set_project))
