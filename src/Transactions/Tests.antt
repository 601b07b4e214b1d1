-- ===== src/Transactions/Tests.antt =====
-- Filters with blank fields.
use pecunia.Prelude.{◌≡◌, refl, none, some}
use pecunia.Prelude.Int.{negsuc}
use pecunia.Prelude.Text.{trim, Text, codes}
use pecunia.Transactions.{TransactionFilters, expense, key_filters}

abbrev filters : Text → TransactionFilters
filters q = record {
  q = some q;
  account_id = some "";
  category_id = none;
  contact_id = none;
  type = some expense;
  date_from = some "2026-01-01";
  date_to = none;
  min_amount_minor = some (negsuc 4);
  max_amount_minor = none;
}

padded_key : key_filters (filters (codes " rent ")) ≡ key_filters (filters (codes "rent"))
unfolding key_filters trim
padded_key = refl
