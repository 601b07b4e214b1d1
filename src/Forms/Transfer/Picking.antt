-- ===== src/Forms/Transfer/Picking.antt =====
-- The form's fields as they are changed, one after the other, by its controls (the `onChange`
-- handlers of TransferForm.tsx): a select takes one of the accounts that it offers.
use pecunia.Prelude.{
  false≢true, String, ◌≡◌, refl, sym, ◌∙◌, inl, inr, Bool, true, false, not, ◌&&◌, Option, none,
  some, List, [], ◌∷◌, arith, str_eq, str_eq_iff, In, In-filter, if◌then◌else◌, Bool-cases,
}
use pecunia.Prelude.Text.{Text}
use pecunia.Money.{Intl}
use pecunia.Hooks.Accounts.{AccountOut}
use pecunia.Hooks.Transfers.{TransferOut}
use pecunia.Forms.Transaction.{or_else, first_id}
use pecunia.Forms.Transfer.{
  TransferForm, first_other, open_form, options_without, from_options, to_options, same_account,
  guard_of, currency_mismatch,
}

abbrev with_accounts : String → String → TransferForm → TransferForm
with_accounts from_id to_id form = record {
  transfer = form.transfer;
  accounts = form.accounts;
  from_id = from_id;
  to_id = to_id;
  amount = form.amount;
  description = form.description;
  occurred_on = form.occurred_on;
}

abbrev with_texts : Text → String → String → TransferForm → TransferForm
with_texts amount description occurred_on form = record {
  transfer = form.transfer;
  accounts = form.accounts;
  from_id = form.from_id;
  to_id = form.to_id;
  amount = amount;
  description = description;
  occurred_on = occurred_on;
}

-- One change of a field.
pub data Change (form : TransferForm) : TransferForm → Type 0 where
  picks_from :
      (a : AccountOut) → In a (from_options form) → Change form (with_accounts a.id form.to_id form)
  picks_to :
      (a : AccountOut) → In a (to_options form) → Change form (with_accounts form.from_id a.id form)
  types :
      (amount : Text) (description occurred_on : String)
      → Change form (with_texts amount description occurred_on form)

-- Any number of changes.
pub data Changes (form : TransferForm) : TransferForm → Type 0 where
  none_yet : Changes form form
  and_then : (f g : TransferForm) → Changes form f → Change f g → Changes form g

option_differs :
    (id : String) (a : AccountOut) (accounts : List AccountOut)
    → In a (options_without id accounts)
    → str_eq a.id id ≡ false
option_differs id a accounts i =
    flip (str_eq a.id id) (In-filter (λ (b : AccountOut). not (str_eq b.id id)) a accounts i).1
  where
    flip : (b : Bool) → not b ≡ true → b ≡ false
    flip true e = sym e
    flip false e = refl

str_eq_sym : (a b : String) → str_eq a b ≡ false → str_eq b a ≡ false
str_eq_sym a b h = elim (Bool-cases (str_eq b a)) [
  | inl e ↦ absurd (false≢true (sym h ∙ (str_eq_iff a b).1 (sym ((str_eq_iff b a).0 e))))
  | inr e ↦ e
]

one_step : (f g : TransferForm) → Change f g → same_account f ≡ false → same_account g ≡ false
one_step f g (picks_from a i) h = rw (option_differs f.to_id a f.accounts i) (ground arith)
one_step f g (picks_to a i) h =
    rw (str_eq_sym a.id f.from_id (option_differs f.from_id a f.accounts i)) (ground arith)
one_step f g (types amount description occurred_on) h = h

all_steps : (f g : TransferForm) → Changes f g → same_account f ≡ false → same_account g ≡ false
all_steps f g none_yet h = h
all_steps f g (and_then e g' cs c) h = one_step e g c (all_steps f e cs h)

first_other_differs :
    (id : String) (accounts : List AccountOut)
    → (not (str_eq id "") && str_eq id (first_other id accounts)) ≡ false
first_other_differs id [] = ground arith
first_other_differs id (a ∷ accounts) = elim (Bool-cases (str_eq a.id id)) [
  | inl e ↦ rw e (first_other_differs id accounts)
  | inr e ↦ rw (e, str_eq_sym a.id id e) (ground arith)
]

-- Whether a transfer that is edited is between two accounts.
abbrev pub HasTwoAccounts : Option TransferOut → Type 0
HasTwoAccounts none = Unit
HasTwoAccounts (some t) = str_eq t.from_account_id t.to_account_id ≡ false

opened_differs :
    (intl : Intl) (o : Option TransferOut) (accounts : List AccountOut) (d : Option String)
    (today : String)
    → HasTwoAccounts o
    → same_account (open_form intl o accounts d today) ≡ false
unfolding open_form
opened_differs intl none accounts d today h =
    first_other_differs (or_else d (first_id accounts)) accounts
opened_differs intl (some t) accounts d today h = rw h (ground arith)

-- From the form as it opens, in create mode or for a transfer between two accounts, whatever its
-- fields are changed to by its controls, the two accounts never agree; so the guard is the one on
-- currencies or none.
pub picked_accounts_differ :
    (intl : Intl) (o : Option TransferOut) (accounts : List AccountOut) (d : Option String)
    (today : String) (form : TransferForm)
    → HasTwoAccounts o
    → Changes (open_form intl o accounts d today) form
    → (same_account form ≡ false)
      × (guard_of form ≡ (
          if currency_mismatch form
          then some "Both accounts must use the same currency — Pecunia doesn't convert currencies."
          else none))
picked_accounts_differ intl o accounts d today form h cs =
    let same =
      all_steps (open_form intl o accounts d today) form cs
        (opened_differs intl o accounts d today h) in
    (same, rw same refl)
