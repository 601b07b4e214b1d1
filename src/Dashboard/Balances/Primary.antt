-- ===== src/Dashboard/Balances/Primary.antt =====
-- The account that the dashboard features.
use mathlib.Core.Path.{subst}
use pecunia.Prelude.Largest.{largest_of, reduce_largest, largest_of-In, largest_of-ge_all}
use pecunia.Prelude.{
  String, ◌≡◌, refl, sym, ◌≢◌, ◌⊎◌, inl, inr, Bool, true, false, Option, none, some, List, [], ◌∷◌,
  str_eq, str_eq_iff, filter, In, In-filter, filter-In, if◌then◌else◌, Bool-cases,
}
use pecunia.Prelude.Int.{ℤ, ◌≤ℤ◌}
use pecunia.Dashboard.Balances.{
  AccountSummary, is_active, is_empty, or_pool, select_primary_account, reduce_largest,
}

-- What makes `r` the primary account of the list: it is one of the active accounts, and if any
-- active account is in the base currency, it is one of those and none of them has more, and
-- otherwise no active account has more.
pub record IsPrimary (accounts : List AccountSummary) (base : String) (r : AccountSummary)
    : Type 0 where
  pub listed : In r accounts
  pub active : is_active r ≡ true
  pub preferred :
      (a : AccountSummary)
      → In a accounts
      → is_active a ≡ true
      → a.currency ≡ base
      → (r.currency ≡ base) × (a.balance_minor ≤ℤ r.balance_minor)
  pub fallback :
      ((a : AccountSummary) → In a accounts → is_active a ≡ true → a.currency ≢ base)
      → (a : AccountSummary) → In a accounts
      → is_active a ≡ true
      → a.balance_minor ≤ℤ r.balance_minor

pub data Selection (accounts : List AccountSummary) (base : String)
    : Option AccountSummary → Type 0 where
  nothing :
      ((a : AccountSummary) → In a accounts → is_active a ≡ false) → Selection accounts base none
  featured : (r : AccountSummary) → IsPrimary accounts base r → Selection accounts base (some r)

abbrev in_base : String → AccountSummary → Bool
in_base base a = str_eq a.currency base

abbrev balance : AccountSummary → ℤ
balance a = a.balance_minor

-- The pool is the base currency's accounts.
same-IsPrimary :
    (accounts : List AccountSummary) (base : String) (x : AccountSummary) (xs : List AccountSummary)
    → filter (in_base base) (filter is_active accounts) ≡ x ∷ xs
    → IsPrimary accounts base (largest_of balance x xs)
same-IsPrimary accounts base x xs e =
    let m = subst (λ l. In (largest_of balance x xs) l) (sym e) (largest_of-In balance x xs) in
    let (m', b) =
      In-filter (in_base base) (largest_of balance x xs) (filter is_active accounts) m in
    let (listed, act) = In-filter is_active (largest_of balance x xs) accounts m' in
    let cur = (str_eq_iff (largest_of balance x xs).currency base).0 b in
    record {
      listed = listed;
      active = act;
      preferred = λ a i h c. (
        cur,
        largest_of-ge_all balance x xs a (
            subst (λ l. In a l) e
              (filter-In (in_base base) a (filter is_active accounts)
                (filter-In is_active a accounts i h) ((str_eq_iff a.currency base).1 c))),
      );
      fallback = λ none_in a i h. absurd (none_in (largest_of balance x xs) listed act cur);
    }

-- No active account is in the base currency, and the pool is all active accounts.
active-IsPrimary :
    (accounts : List AccountSummary) (base : String) (x : AccountSummary) (xs : List AccountSummary)
    → filter (in_base base) (filter is_active accounts) ≡ []
    → filter is_active accounts ≡ x ∷ xs
    → IsPrimary accounts base (largest_of balance x xs)
active-IsPrimary accounts base x xs n e =
    let m = subst (λ l. In (largest_of balance x xs) l) (sym e) (largest_of-In balance x xs) in
    let (listed, act) = In-filter is_active (largest_of balance x xs) accounts m in
    record {
      listed = listed;
      active = act;
      preferred = λ a i h c. absurd (
          subst (λ l. In a l) n
            (filter-In (in_base base) a (filter is_active accounts)
              (filter-In is_active a accounts i h) ((str_eq_iff a.currency base).1 c)));
      fallback = λ none_in a i h.
          largest_of-ge_all balance x xs a
            (subst (λ l. In a l) e (filter-In is_active a accounts i h));
    }

select_from :
    (accounts active same : List AccountSummary) (base : String)
    → filter is_active accounts ≡ active
    → filter (in_base base) (filter is_active accounts) ≡ same
    → Selection accounts base
        (if is_empty active then none else reduce_largest balance (or_pool same active))
select_from accounts [] same base e f = nothing (λ a i. inactive a i (Bool-cases (is_active a)))
  where
    inactive :
        (a : AccountSummary)
        → In a accounts
        → (is_active a ≡ true) ⊎ (is_active a ≡ false)
        → is_active a ≡ false
    inactive a i (inl h) = absurd (subst (λ l. In a l) e (filter-In is_active a accounts i h))
    inactive a i (inr h) = h
select_from accounts (x ∷ xs) [] base e f =
    featured (largest_of balance x xs) (active-IsPrimary accounts base x xs f e)
select_from accounts (x ∷ xs) (y ∷ ys) base e f =
    featured (largest_of balance y ys) (same-IsPrimary accounts base y ys f)

-- The selection is none exactly for want of an active account, and else it is an active account
-- with the greatest balance among the base currency's active accounts, or among all active
-- accounts if there is none in the base currency.
pub select_primary_account-Selection :
    (accounts : List AccountSummary) (base : String)
    → Selection accounts base (select_primary_account accounts base)
unfolding select_primary_account
select_primary_account-Selection accounts base = select_from accounts _ _ base refl refl
