-- ===== src/Forms/Transfer/Guards.antt =====
-- What a transfer that is sent has.
use pecunia.Prelude.{
  ℕ, ◌<◌, ◌≡◌, refl, sym, ap, ◌∙◌, ◌↔◌, Bool, true, false, not, ◌&&◌, Option, none, some, arith,
  str_eq, ◌==◌, if◌then◌else◌,
}
use pecunia.Money.{Intl}
use pecunia.Money.Amount.{amount_to_minor}
use pecunia.Hooks.{Mutation}
use pecunia.Forms.{with_amount_error, stays, refused, sends, trimmed}
use pecunia.Forms.Transfer.{
  TransferForm, currency_mismatch, can_submit, currency_of, mutation_by, with_amount,
  transfer_submission,
}

-- A form whose submit may be sent with an amount: two accounts that are chosen and differ, of one
-- currency where both are known, a text and a date that are not empty, and a positive amount that
-- is read in the currency of the source account.
pub record IsReady (intl : Intl) (form : TransferForm) (amount_minor : ℕ) : Type 0 where
  pub from_chosen : str_eq form.from_id "" ≡ false
  pub to_chosen : str_eq form.to_id "" ≡ false
  pub two_accounts : str_eq form.from_id form.to_id ≡ false
  pub one_currency : currency_mismatch form ≡ false
  pub has_text : str_eq (trimmed form.description) "" ≡ false
  pub has_date : str_eq form.occurred_on "" ≡ false
  pub amount_read : amount_to_minor intl form.amount (currency_of form) ≡ some amount_minor
  pub positive : 0 < amount_minor

module _ (intl : Intl) (form : TransferForm) where
  ready_can_submit : (n : ℕ) → IsReady intl form n → can_submit form ≡ true
  unfolding can_submit
  ready_can_submit n r =
      rw (r.from_chosen, r.to_chosen, r.two_accounts, r.one_currency, r.has_text, r.has_date) refl

  with_positive :
      (n : ℕ) → 0 < n → with_amount form (some n) ≡ sends (mutation_by form form.transfer n)
  with_positive n h = rw (not_zero n h) refl
    where
      not_zero : (k : ℕ) → 0 < k → (k == 0) ≡ false
      not_zero k h = ground arith

  ready_sends :
      (n : ℕ)
      → IsReady intl form n
      → transfer_submission intl form ≡ sends (mutation_by form form.transfer n)
  unfolding transfer_submission
  ready_sends n r =
      rw (ready_can_submit n r) (ap (with_amount form) r.amount_read ∙ with_positive n r.positive)

  -- The parts of a form that can be submitted.
  parts :
      (a b c d e f : Bool)
      → (not a && (not b && (not (not a && c) && (not d && (not e && not f))))) ≡ true
      → (a ≡ false) × (b ≡ false) × (c ≡ false) × (d ≡ false) × (e ≡ false) × (f ≡ false)
  parts a b c d e f h =
      (ground arith, ground arith, ground arith, ground arith, ground arith, ground arith)

  of_amount :
      (m : Mutation) (o : Option ℕ)
      → can_submit form ≡ true
      → amount_to_minor intl form.amount (currency_of form) ≡ o
      → with_amount form o ≡ sends m
      → (n : ℕ) × IsReady intl form n × (m ≡ mutation_by form form.transfer n)
  unfolding can_submit
  of_amount m none h k e = absurd (clash e)
    where
      clash : refused (with_amount_error "Enter a valid amount.") ≡ sends m → ⊥
      clash z = cc
  of_amount m (some n) h k e = by_zero (n == 0) refl e
    where
      by_zero :
          (b : Bool)
          → (n == 0) ≡ b
          → (if b
              then refused (with_amount_error "Enter an amount greater than zero.")
              else sends (mutation_by form form.transfer n))
            ≡ sends m
          → (n' : ℕ) × IsReady intl form n' × (m ≡ mutation_by form form.transfer n')
      by_zero true q z = absurd (clash z)
        where
          clash : refused (with_amount_error "Enter an amount greater than zero.") ≡ sends m → ⊥
          clash z = cc
      by_zero false q z =
          let p =
            parts (str_eq form.from_id "") (str_eq form.to_id "") (str_eq form.from_id form.to_id)
              (currency_mismatch form) (str_eq (trimmed form.description) "")
              (str_eq form.occurred_on "") h in
          (
            n,
            record {
              from_chosen = p.0;
              to_chosen = p.1;
              two_accounts = p.2;
              one_currency = p.3;
              has_text = p.4;
              has_date = p.5;
              amount_read = k;
              positive = positive n q;
            },
            sent z,
          )
        where
          positive : (x : ℕ) → (x == 0) ≡ false → 0 < x
          positive x q = ground arith

          sent :
              sends (mutation_by form form.transfer n) ≡ sends m
              → m ≡ mutation_by form form.transfer n
          sent z = cc

  sent_parts :
      (m : Mutation)
      → transfer_submission intl form ≡ sends m
      → (n : ℕ) × IsReady intl form n × (m ≡ mutation_by form form.transfer n)
  unfolding transfer_submission
  sent_parts m e = by_guard (can_submit form) refl e
    where
      by_guard :
          (b : Bool)
          → can_submit form ≡ b
          → (if b
              then with_amount form (amount_to_minor intl form.amount (currency_of form))
              else stays)
            ≡ sends m
          → (n : ℕ) × IsReady intl form n × (m ≡ mutation_by form form.transfer n)
      by_guard true h e = of_amount m _ h refl e
      by_guard false h e = absurd (clash e)
        where
          clash : stays ≡ sends m → ⊥
          clash z = cc

  -- A submit sends a mutation exactly when the form is ready: its accounts are chosen, differ and
  -- have one currency where both are known, its text and date are not empty, and its amount reads
  -- as a positive number. What it sends is then the form's transfer of that amount.
  pub transfer_submission-IsReady :
      (m : Mutation)
      → (transfer_submission intl form ≡ sends m)
        ↔ ((n : ℕ) × IsReady intl form n × (m ≡ mutation_by form form.transfer n))
  transfer_submission-IsReady m =
      (λ e. sent_parts m e, λ r. ready_sends r.0 r.1 ∙ ap sends (sym r.2))
