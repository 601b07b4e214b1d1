-- ===== src/Transactions.antt =====
-- The transaction list's filters (web/src/features/transactions/useTransactions.ts): what of them
-- counts, and the query parameters they become. The parameters are listed before they are
-- percent-encoded. Amounts are integers, so none is NaN.
pub mod Trimmed
pub mod Filters
mod Tests
use pecunia.Prelude.{
  ℕ, suc, ◌+◌, ◌-◌, String, Bool, true, false, not, Option, none, some, List, [], ◌∷◌, ◌++◌, str_eq,
  if◌then◌else◌,
}
use pecunia.Prelude.Int.{ℤ, pos, negsuc}
use pecunia.Prelude.Text.{Text, codes, show, trim}

pub data TransactionType : Type 0 where
  income expense transfer : TransactionType

pub record TransactionFilters : Type 0 where
  pub q : Option Text
  pub account_id : Option String
  pub category_id : Option String
  pub contact_id : Option String
  pub type : Option TransactionType
  pub date_from : Option String
  pub date_to : Option String
  pub min_amount_minor : Option ℤ
  pub max_amount_minor : Option ℤ

abbrev pub non_empty : Text → Option Text
non_empty [] = none
non_empty (c ∷ s) = some (c ∷ s)

abbrev pub clean_text : Option Text → Option Text
clean_text none = none
clean_text (some s) = non_empty (trim s)

-- The empty string counts as no value.
abbrev pub truthy : Option String → Option String
truthy none = none
truthy (some s) = if str_eq s "" then none else some s

unfoldable pub clean_filters : TransactionFilters → TransactionFilters
clean_filters filters = record {
  q = clean_text filters.q;
  account_id = truthy filters.account_id;
  category_id = truthy filters.category_id;
  contact_id = truthy filters.contact_id;
  type = filters.type;
  date_from = truthy filters.date_from;
  date_to = truthy filters.date_to;
  min_amount_minor = filters.min_amount_minor;
  max_amount_minor = filters.max_amount_minor;
}

-- A query parameter: its name and its value.
abbrev pub Param : Type 0
Param = String × Text

abbrev pub param {ℓ} : {A : Type ℓ} → String → (A → Text) → Option A → List Param
param name text none = []
param name text (some a) = (name, text a) ∷ []

abbrev pub text_of_type : TransactionType → Text
text_of_type income = codes "income"
text_of_type expense = codes "expense"
text_of_type transfer = codes "transfer"

abbrev pub text_of_int : ℤ → Text
text_of_int (pos n) = show n
text_of_int (negsuc n) = codes "-" ++ show (suc n)

-- The entries of the clean filters, in the order in which they are set, under `FILTER_PARAM`.
unfoldable pub filter_params : TransactionFilters → List Param
filter_params clean =
    param "q" (λ (t : Text). t) clean.q
    ++ (param "account_id" codes clean.account_id
        ++ (param "category_id" codes clean.category_id
            ++ (param "contact_id" codes clean.contact_id
                ++ (param "type" text_of_type clean.type
                    ++ (param "from" codes clean.date_from
                        ++ (param "to" codes clean.date_to
                            ++ (param "min_amount_minor" text_of_int clean.min_amount_minor
                                ++ param "max_amount_minor" text_of_int
                                    clean.max_amount_minor)))))))

abbrev pub is_empty {ℓ} : {A : Type ℓ} → List A → Bool
is_empty [] = true
is_empty (x ∷ xs) = false

unfoldable pub has_active_filters : TransactionFilters → Bool
unfolding clean_filters filter_params
has_active_filters filters = not (is_empty (filter_params (clean_filters filters)))

-- `transactionsQueryString` before encoding
unfoldable pub transactions_query : TransactionFilters → Option String → ℕ → List Param
unfolding clean_filters filter_params
transactions_query filters cursor limit =
    ("limit", show limit) ∷ filter_params (clean_filters filters)
    ++ param "cursor" codes (truthy cursor)

-- The last slot of `transactionsQueryKey`, where the key has one.
unfoldable pub key_filters : TransactionFilters → Option TransactionFilters
unfolding has_active_filters clean_filters
key_filters filters = if has_active_filters filters then some (clean_filters filters) else none
