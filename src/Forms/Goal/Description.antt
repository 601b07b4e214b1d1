-- ===== src/Forms/Goal/Description.antt =====
-- The goal that a form describes, by the fields of the form.
use pecunia.Prelude.{ℕ, String, ◌≡◌, ◌≢◌, true, false, Option, none, some, [], str_eq}
use pecunia.Prelude.Int.{ℤ, pos}
use pecunia.Prelude.Text.{trim}
use pecunia.Money.{Intl}
use pecunia.Money.Amount.{amount_to_minor}
use pecunia.Hooks.{Mutation}
use pecunia.Hooks.Accounts.{AccountOut}
use pecunia.Hooks.Portfolios.{PortfolioOut}
use pecunia.Hooks.Goals.{
  GoalSourceKind, account, portfolio, net_worth, manual, CreateGoalPayload, UpdateGoalPayload,
  goal_mutation, create_goal, update_goal,
}
use pecunia.Forms.{trimmed}
use pecunia.Forms.Transaction.{find_account}
use pecunia.Forms.Goal.{GoalForm, find_portfolio}

-- The currency that a goal of the kind is in: that of its account or portfolio, if the form knows
-- it, and else the one that was chosen.
pub data CurrencyOf (form : GoalForm) : GoalSourceKind → String → Type 0 where
  of_account :
      (a : AccountOut)
      → find_account form.account_id form.accounts ≡ some a
      → CurrencyOf form account a.currency
  of_no_account :
      find_account form.account_id form.accounts ≡ none → CurrencyOf form account form.free_currency
  of_portfolio :
      (p : PortfolioOut)
      → find_portfolio form.portfolio_id form.portfolios ≡ some p
      → CurrencyOf form portfolio p.currency
  of_no_portfolio :
      find_portfolio form.portfolio_id form.portfolios ≡ none
      → CurrencyOf form portfolio form.free_currency
  of_net_worth : CurrencyOf form net_worth form.free_currency
  of_manual : CurrencyOf form manual form.free_currency

-- A text, or null if it is empty.
pub data TextOrNull (s : String) : Option String → Type 0 where
  empty_text : str_eq s "" ≡ true → TextOrNull s none
  given_text : str_eq s "" ≡ false → TextOrNull s (some s)

-- The id that goes with the kind.
pub data SourceOf (form : GoalForm) : GoalSourceKind → Option String → Type 0 where
  account_id : {o : Option String} → TextOrNull form.account_id o → SourceOf form account o
  portfolio_id : {o : Option String} → TextOrNull form.portfolio_id o → SourceOf form portfolio o
  net_worth_source : SourceOf form net_worth none
  manual_source : SourceOf form manual none

-- A key that is left out for null.
pub data OrLeftOut {A : Type 0} : Option A → Option (Option A) → Type 0 where
  left_out : OrLeftOut none none
  sent : (a : A) → OrLeftOut (some a) (some (some a))

-- The progress that is sent: only a manual goal has one, and only if its field is not blank.
pub data ProgressOf (intl : Intl) (form : GoalForm) (currency : String) : Option ℤ → Type 0 where
  of_source : form.source_kind ≢ manual → ProgressOf intl form currency none
  of_blank : trim form.manual_current ≡ [] → ProgressOf intl form currency none
  of_amount :
      form.source_kind ≡ manual
      → trim form.manual_current ≢ []
      → (n : ℕ) → amount_to_minor intl form.manual_current currency ≡ some n
      → ProgressOf intl form currency (some (pos n))

module _ (form : GoalForm) (target : ℕ) (currency : String) (current : Option ℤ) where
  pub record IsCreated (p : CreateGoalPayload) : Type 0 where
    pub name : p.name ≡ trimmed form.name
    pub target_minor : p.target_minor ≡ pos target
    pub same_currency : p.currency ≡ currency
    pub kind : p.source_kind ≡ some form.source_kind
    pub date : Option String
    pub date_of : TextOrNull form.target_date date
    pub date_sent : OrLeftOut date p.target_date
    pub source : Option String
    pub source_of : SourceOf form form.source_kind source
    pub source_sent : OrLeftOut source p.source_id
    pub progress_sent : OrLeftOut current p.manual_current_minor

  pub record IsEdited (p : UpdateGoalPayload) : Type 0 where
    pub name : p.name ≡ some (trimmed form.name)
    pub target_minor : p.target_minor ≡ some (pos target)
    pub same_currency : p.currency ≡ some currency
    pub kind : p.source_kind ≡ some form.source_kind
    pub date : Option String
    pub date_of : TextOrNull form.target_date date
    pub date_sent : p.target_date ≡ some date
    pub source : Option String
    pub source_of : SourceOf form form.source_kind source
    pub source_sent : p.source_id ≡ some source
    pub progress_sent : p.manual_current_minor ≡ some current

  -- A new goal leaves out what is null, and an edit sends it as null.
  pub data Body : Option String → Mutation → Type 0 where
    created : (p : CreateGoalPayload) → IsCreated p → Body none (goal_mutation (create_goal p))
    edited :
        (id : String) (p : UpdateGoalPayload)
        → IsEdited p
        → Body (some id) (goal_mutation (update_goal id p))

-- The goal that the form describes.
pub record SendsGoal (intl : Intl) (form : GoalForm) (m : Mutation) : Type 0 where
  pub named : trimmed form.name ≢ ""
  pub currency : String
  pub currency_of : CurrencyOf form form.source_kind currency
  pub target : ℕ
  pub target_read : amount_to_minor intl form.target currency ≡ some target
  pub current : Option ℤ
  pub progress_of : ProgressOf intl form currency current
  pub body : Body form target currency current form.goal_id m
