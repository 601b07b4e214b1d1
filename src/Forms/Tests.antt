-- ===== src/Forms/Tests.antt =====
-- The forms on concrete fields.
use pecunia.Prelude.{
  ℕ, String, ◌≡◌, refl, ◌↔◌, inl, inr, false, none, some, List, [], ◌∷◌, if◌then◌else◌,
}
use pecunia.Prelude.Int.{pos, negsuc, pos_part}
use pecunia.Prelude.Text.{codes, is_space, show}
use pecunia.Money.{Intl}
use pecunia.Money.Amount.{minor_to_amount_input}
use pecunia.Hooks.{Mutation}
use pecunia.Hooks.Accounts.{AccountOut, checking}
use pecunia.Hooks.Transactions.{TransactionOut, transaction_mutation, update_transaction}
use pecunia.Hooks.Goals.{manual}
use pecunia.Forms.{sends, trimmed}
use pecunia.Forms.Transaction.{open_form, transaction_submission}
use pecunia.Forms.Transaction.Resubmitted.{IsShown, own_payload, transaction_submission-open_form}
use pecunia.Forms.Transfer.{
  open_form as open_transfer, TransferForm, transfer_submission, mutation_by, same_account,
  guard_of, currency_mismatch,
}
use pecunia.Forms.Transfer.Guards.{IsReady, transfer_submission-IsReady}
use pecunia.Forms.Transfer.Picking.{Changes, none_yet, and_then, picks_from, picked_accounts_differ}
use pecunia.Forms.Goal.{mutation_by as goal_mutation_by, GoalForm, goal_submission}
use pecunia.Forms.Goal.Description.{SendsGoal}
use pecunia.Forms.Goal.Described.{goal_submission-SendsGoal}

abbrev intl : Intl
intl = record {
  minimum_fraction_digits = λ locale currency. some 2;
  format = λ locale currency amount. show (pos_part amount.num);
}

trims : (trimmed "  rent  paid " ≡ "rent  paid") × (trimmed " " ≡ "") × (trimmed "x" ≡ "x")
unfolding trimmed is_space
trims = (refl, refl, refl)

abbrev account : String → AccountOut
account id = record {
  id = id;
  name = "bank";
  type = checking;
  currency = "BRL";
  initial_balance_minor = pos 0;
  balance_minor = pos 0;
  is_demo = false;
  archived_at = none;
  created_at = "";
  updated_at = "";
}

abbrev accounts : List AccountOut
accounts = account "a1" ∷ account "a2" ∷ account "a3" ∷ []

abbrev spent : TransactionOut
spent = record {
  id = "t1";
  account_id = "a2";
  category_id = some "c1";
  contact_id = none;
  project_id = none;
  transfer_id = none;
  amount_minor = negsuc 1249;
  currency = "BRL";
  description = "rent";
  occurred_on = "2026-01-05";
  is_demo = false;
  is_imported = false;
  deleted_at = none;
  created_at = "";
  updated_at = "";
}

spent-IsShown : IsShown accounts spent
unfolding trimmed is_space
spent-IsShown = record {
  own_account = account "a2";
  found = refl;
  same_currency = refl;
  trimmed_text = refl;
  set_account = refl;
  set_text = refl;
  set_date = refl;
  set_category = refl;
  set_contact = _;
  set_project = _;
}

resubmit_example :
    transaction_submission intl (open_form intl (some spent) accounts none none "2026-02-01")
    ≡ sends (transaction_mutation (update_transaction "t1" (own_payload spent)))
resubmit_example =
    transaction_submission-open_form intl accounts spent none none "2026-02-01" spent-IsShown

abbrev transfer_form : String → String → TransferForm
transfer_form from_id to_id = record {
  transfer = none;
  accounts = accounts;
  from_id = from_id;
  to_id = to_id;
  amount = minor_to_amount_input intl (pos 500) "BRL";
  description = "saving";
  occurred_on = "2026-01-05";
}

guard_example :
    (transfer_submission intl (transfer_form "a1" "a2")
      ≡ sends (mutation_by (transfer_form "a1" "a2") none 500))
    ↔ ((n : ℕ) × IsReady intl (transfer_form "a1" "a2") n
        × (mutation_by (transfer_form "a1" "a2") none 500
            ≡ mutation_by (transfer_form "a1" "a2") none n))
guard_example =
    transfer_submission-IsReady intl (transfer_form "a1" "a2")
      (mutation_by (transfer_form "a1" "a2") none 500)

abbrev empty_transfer : TransferForm
empty_transfer = record {
  transfer = none;
  accounts = accounts;
  from_id = "a3";
  to_id = "a2";
  amount = [];
  description = "";
  occurred_on = "2026-01-05";
}

picked : Changes (open_transfer intl none accounts none "2026-01-05") empty_transfer
unfolding open_transfer
picked = and_then _ _ none_yet (picks_from (account "a3") (inr (inl refl)))

picking_example :
    (same_account empty_transfer ≡ false)
    × (guard_of empty_transfer ≡ (
        if currency_mismatch empty_transfer
        then some "Both accounts must use the same currency — Pecunia doesn't convert currencies."
        else none))
picking_example =
    picked_accounts_differ intl none accounts none "2026-01-05" empty_transfer _ picked

abbrev goal_form : GoalForm
goal_form = record {
  goal_id = none;
  accounts = accounts;
  portfolios = [];
  name = "house";
  source_kind = manual;
  account_id = "";
  portfolio_id = "";
  free_currency = "BRL";
  target = codes "1000";
  target_date = "";
  manual_current = codes " ";
}

abbrev saving : Mutation
saving = goal_mutation_by goal_form none 100000 none

goal_example : (goal_submission intl goal_form ≡ sends saving) ↔ SendsGoal intl goal_form saving
goal_example = goal_submission-SendsGoal intl goal_form saving
