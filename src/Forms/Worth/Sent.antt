-- ===== src/Forms/Worth/Sent.antt =====
-- What the forms with an optional amount send.
use pecunia.Prelude.{
  String, ◌≡◌, refl, sym, ap, ◌∙◌, true, Option, none, some, str_eq, if◌then◌else◌,
}
use pecunia.Prelude.Int.{ℤ}
use mathlib.Core.Option
use pecunia.Prelude.Text.{Text, trim}
use pecunia.Money.{Intl}
use pecunia.Api.{Json, find_field}
use pecunia.Hooks.{Mutation, Entries, fields_of}
use pecunia.Forms.{sends, trimmed}
use pecunia.Forms.Goal.{is_empty}
use pecunia.Forms.Reading.{SendsOf, sends_of}
use pecunia.Forms.Worth.{
  invalid_amount, optional_amount, AccountForm, account_by, account_reading, account_submission,
  AssetForm, asset_by, asset_reading, asset_submission, ProjectForm, project_by, project_reading,
  project_submission,
}

-- An account, an asset and a project are sent exactly with a name that is not blank and an optional
-- amount that is blank or is read, in the currency of the form and for an account with its sign; an
-- edit of an account or an asset reads none. What is sent is the form's own mutation of the amount.
pub worth_forms-SendsOf :
    (intl : Intl) (a : AccountForm) (s : AssetForm) (p : ProjectForm)
    → SendsOf
        (account_submission intl a)
        (str_eq (trimmed a.name) "")
        (account_reading intl a)
        (account_by a a.account_id)
      × SendsOf
          (asset_submission intl s)
          (str_eq (trimmed s.name) "")
          (asset_reading intl s)
          (asset_by s s.asset_id)
      × SendsOf
          (project_submission intl p)
          (str_eq (trimmed p.name) "")
          (project_reading intl p)
          (project_by p p.project_id)
unfolding account_submission asset_submission project_submission
worth_forms-SendsOf intl a s p = (
  sends_of invalid_amount _ _ (account_by a a.account_id),
  sends_of invalid_amount _ _ (asset_by s s.asset_id),
  sends_of invalid_amount _ _ (project_by p p.project_id),
)

-- The value of a key of the body.
abbrev pub in_body : String → Option Entries → Option Json
in_body key none = none
in_body key (some entries) = find_field key (fields_of entries)

absent :
    (form : ProjectForm) (o : Option String)
    → in_body "target_amount_minor" (project_by form o none).body ≡ none
absent form none = refl
absent form (some id) = refl

blank_read :
    (field : Text) (parsed : Option ℤ) (a : Option ℤ)
    → is_empty (trim field) ≡ true
    → optional_amount field parsed ≡ some a
    → a ≡ none
blank_read field parsed a h e =
    inj ((ap (λ b. if b then some none else Option.map some parsed) (sym h)) ∙ e)
  where
    inj : ◌≡◌ {A = Option (Option ℤ)} (some none) (some a) → a ≡ none
    inj z = cc

-- A project whose target is blank is sent without a target, as an edit too: emptying the field of a
-- target that is set does not clear it.
pub project_blank_target :
    (intl : Intl) (p : ProjectForm) (m : Mutation)
    → is_empty (trim p.target_amount) ≡ true
    → project_submission intl p ≡ sends m
    → in_body "target_amount_minor" m.body ≡ none
unfolding project_submission
project_blank_target intl p m h e =
    let r =
      (sends_of invalid_amount (str_eq (trimmed p.name) "") (project_reading intl p)
          (project_by p p.project_id) m).0
        e in
    let no_amount = blank_read p.target_amount _ r.1.0 h r.1.1 in
    ap (λ (k : Mutation). in_body "target_amount_minor" k.body)
      (r.1.2 ∙ ap (project_by p p.project_id) no_amount)
    ∙ absent p p.project_id
