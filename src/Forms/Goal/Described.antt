-- ===== src/Forms/Goal/Described.antt =====
-- What the form of a goal sends, described by the fields of the form.
use pecunia.Prelude.{
  true≢false, ℕ, String, ◌≡◌, refl, sym, ap, ◌∙◌, ◌≢◌, ◌↔◌, inl, inr, false, Option, none, some,
  str_eq, str_eq_iff, Bool-cases,
}
use pecunia.Prelude.Int.{ℤ}
use pecunia.Money.{Intl}
use pecunia.Money.Amount.{amount_to_minor}
use pecunia.Hooks.{Mutation}
use pecunia.Hooks.Goals.{
  GoalSourceKind, account, portfolio, net_worth, manual, CreateGoalPayload, UpdateGoalPayload,
  goal_mutation, create_goal, update_goal,
}
use pecunia.Forms.{sends, trimmed, or_null}
use pecunia.Forms.Goal.{
  GoalForm, effective_currency, source_by, unless_null, mutation_by, goal_submission,
}
use pecunia.Forms.Goal.Sent.{goal_submission-Sends}
use pecunia.Forms.Goal.Description.{
  TextOrNull, empty_text, given_text, SourceOf, account_id, portfolio_id, net_worth_source,
  manual_source, OrLeftOut, left_out, sent, Body, created, edited, SendsGoal,
}
use pecunia.Forms.Goal.Built.{
  currency_by-CurrencyOf, CurrencyOf-currency_by, mutation_by-Body, to_ProgressOf, from_ProgressOf,
}

TextOrNull-or_null : (s : String) (o : Option String) → TextOrNull s o → or_null s ≡ o
TextOrNull-or_null s o (empty_text e) = rw e refl
TextOrNull-or_null s o (given_text e) = rw e refl

SourceOf-source_by :
    (form : GoalForm) (kind : GoalSourceKind) (o : Option String)
    → SourceOf form kind o
    → source_by kind form ≡ o
SourceOf-source_by form account o (account_id t) = TextOrNull-or_null form.account_id o t
SourceOf-source_by form portfolio o (portfolio_id t) = TextOrNull-or_null form.portfolio_id o t
SourceOf-source_by form net_worth o net_worth_source = refl
SourceOf-source_by form manual o manual_source = refl

OrLeftOut-unless_null :
    {A : Type 0} (o : Option A) (q : Option (Option A)) → OrLeftOut o q → unless_null o ≡ q
OrLeftOut-unless_null o q left_out = refl
OrLeftOut-unless_null o q (sent a) = refl

create_by_fields :
    (p : CreateGoalPayload) (name : String) (target : ℤ) (currency : String)
    (date : Option (Option String)) (kind : Option GoalSourceKind) (source : Option (Option String))
    (current : Option (Option ℤ))
    → name ≡ p.name
    → target ≡ p.target_minor
    → currency ≡ p.currency
    → date ≡ p.target_date
    → kind ≡ p.source_kind
    → source ≡ p.source_id
    → current ≡ p.manual_current_minor
    → record {
      name = name;
      target_minor = target;
      currency = currency;
      target_date = date;
      source_kind = kind;
      source_id = source;
      manual_current_minor = current;
    }
      ≡ p
create_by_fields p n t c d k s m e1 e2 e3 e4 e5 e6 e7 = rw (e1, e2, e3, e4, e5, e6, e7) refl

update_by_fields :
    (p : UpdateGoalPayload) (name : Option String) (target : Option ℤ) (currency : Option String)
    (date : Option (Option String)) (kind : Option GoalSourceKind) (source : Option (Option String))
    (current : Option (Option ℤ))
    → name ≡ p.name
    → target ≡ p.target_minor
    → currency ≡ p.currency
    → date ≡ p.target_date
    → kind ≡ p.source_kind
    → source ≡ p.source_id
    → current ≡ p.manual_current_minor
    → record {
      name = name;
      target_minor = target;
      currency = currency;
      target_date = date;
      source_kind = kind;
      source_id = source;
      manual_current_minor = current;
    }
      ≡ p
update_by_fields p n t c d k s m e1 e2 e3 e4 e5 e6 e7 = rw (e1, e2, e3, e4, e5, e6, e7) refl

Body-mutation_by :
    (form : GoalForm) (target : ℕ) (currency : String) (current : Option ℤ)
    (goal_id : Option String) (m : Mutation)
    → effective_currency form ≡ currency
    → Body form target currency current goal_id m
    → mutation_by form goal_id target current ≡ m
Body-mutation_by form target currency current none m e (created p h) =
    ap (λ x. goal_mutation (create_goal x))
      (create_by_fields p _ _ _ _ _ _ _ (sym h.name) (sym h.target_minor) (e ∙ sym h.same_currency)
        (ap unless_null (TextOrNull-or_null form.target_date h.date h.date_of)
          ∙ OrLeftOut-unless_null h.date p.target_date h.date_sent)
        (sym h.kind)
        (ap unless_null (SourceOf-source_by form form.source_kind h.source h.source_of)
          ∙ OrLeftOut-unless_null h.source p.source_id h.source_sent)
        (OrLeftOut-unless_null current p.manual_current_minor h.progress_sent))
Body-mutation_by form target currency current (some id) m e (edited _ p h) =
    ap (λ x. goal_mutation (update_goal id x))
      (update_by_fields p _ _ _ _ _ _ _ (sym h.name) (sym h.target_minor)
        (ap some e ∙ sym h.same_currency)
        (ap some (TextOrNull-or_null form.target_date h.date h.date_of) ∙ sym h.date_sent)
        (sym h.kind)
        (ap some (SourceOf-source_by form form.source_kind h.source h.source_of)
          ∙ sym h.source_sent)
        (sym h.progress_sent))

name_given : (s : String) → s ≢ "" → str_eq s "" ≡ false
name_given s n = elim (Bool-cases (str_eq s "")) [
  | inl e ↦ absurd (n ((str_eq_iff s "").0 e))
  | inr e ↦ e
]

-- A form of a goal sends a mutation exactly if that is the goal that the form describes: its name is
-- not blank, its target is read in the currency of its source, and so is a progress that counts,
-- which only a manual goal has whose field is not blank. The mutation has the trimmed name, the
-- target, that currency, the kind and the id that goes with it, the date if there is one, and the
-- progress; a new goal leaves out what is null, and an edit sends it as null.
pub goal_submission-SendsGoal :
    (intl : Intl) (form : GoalForm) (m : Mutation)
    → (goal_submission intl form ≡ sends m) ↔ SendsGoal intl form m
unfolding effective_currency
goal_submission-SendsGoal intl form m = (there, back)
  where
    there : goal_submission intl form ≡ sends m → SendsGoal intl form m
    there e =
        let r = (goal_submission-Sends intl form m).0 e in
        rw r.1.4 (record {
          named = λ q. true≢false (sym ((str_eq_iff (trimmed form.name) "").1 q) ∙ r.0);
          currency = effective_currency form;
          currency_of = currency_by-CurrencyOf form form.source_kind;
          target = r.1.0;
          target_read = r.1.2;
          current = r.1.1;
          progress_of = to_ProgressOf intl form r.1.1 r.1.3;
          body = mutation_by-Body form r.1.0 r.1.1 form.goal_id;
        })

    back : SendsGoal intl form m → goal_submission intl form ≡ sends m
    back r =
        let same : effective_currency form ≡ r.currency =
          CurrencyOf-currency_by form form.source_kind r.currency r.currency_of in
        (goal_submission-Sends intl form m).1 (
          name_given (trimmed form.name) r.named,
          (
            r.target,
            r.current,
            ap (amount_to_minor intl form.target) same ∙ r.target_read,
            from_ProgressOf intl form r.current (rw same r.progress_of),
            sym (Body-mutation_by form r.target r.currency r.current form.goal_id m same r.body),
          ),
        )
