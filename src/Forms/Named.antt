-- ===== src/Forms/Named.antt =====
-- The forms with a name and no amount: of a portfolio
-- (web/src/features/portfolio/PortfolioForm.tsx), of a holding
-- (web/src/features/portfolio/HoldingForm.tsx), of a category
-- (web/src/features/categories/CategoryForm.tsx) and of a contact
-- (web/src/features/contacts/ContactForm.tsx). An id makes the submit an edit.
pub mod Sent
use pecunia.Prelude.{zero, String, Option, none, some, [], ◌∷◌, str_eq, if◌then◌else◌}
use pecunia.Api.{Outcome}
use pecunia.Hooks.{Mutation}
use pecunia.Hooks.Portfolios.{
  portfolio_mutation, create_portfolio, update_portfolio, add_holding, update_holding,
}
use pecunia.Hooks.Categories.{CategoryKind, category_mutation, create_category, update_category}
use pecunia.Hooks.Contacts.{ContactType, contact_mutation, create_contact, update_contact}
use pecunia.Quantity.{parse_quantity}
use pecunia.Forms.{
  FormErrors, with_amount_error, with_error, Submission, stays, sends, detail_of, message_of,
  or_null, trimmed,
}
use pecunia.Forms.Goal.{unless_null}
use pecunia.Forms.Reading.{send_read}

abbrev pub send_named : String → Mutation → Submission
send_named name mutation = if str_eq (trimmed name) "" then stays else sends mutation

pub record PortfolioForm : Type 0 where
  pub portfolio_id : Option String
  pub name : String
  pub currency : String
  pub description : String

abbrev pub portfolio_by : PortfolioForm → Option String → Mutation
portfolio_by form none = portfolio_mutation (
    create_portfolio (record {
      name = trimmed form.name;
      currency = form.currency;
      description = unless_null (or_null (trimmed form.description));
    }))
portfolio_by form (some id) = portfolio_mutation (
    update_portfolio id (record {
      name = some (trimmed form.name);
      currency = some form.currency;
      description = some (or_null (trimmed form.description));
    }))

-- `handleSubmit` of a portfolio.
unfoldable pub portfolio_submission : PortfolioForm → Submission
portfolio_submission form = send_named form.name (portfolio_by form form.portfolio_id)

pub record HoldingForm : Type 0 where
  pub holding_id : Option String
  pub name : String
  pub symbol : String
  pub quantity : String
  pub coingecko_id : String

abbrev pub holding_by : String → HoldingForm → Option String → String → Mutation
holding_by portfolio_id form none quantity = portfolio_mutation (
    add_holding portfolio_id (record {
      name = trimmed form.name;
      quantity = quantity;
      symbol = some (or_null (trimmed form.symbol));
      coingecko_id = some (or_null form.coingecko_id);
    }))
holding_by portfolio_id form (some id) quantity = portfolio_mutation (
    update_holding portfolio_id id (record {
      name = some (trimmed form.name);
      quantity = some quantity;
      symbol = some (or_null (trimmed form.symbol));
      coingecko_id = some (or_null form.coingecko_id);
    }))

-- `handleSubmit` of a holding of the portfolio.
unfoldable pub holding_submission : String → HoldingForm → Submission
holding_submission portfolio_id form =
    if str_eq (trimmed form.name) ""
    then stays
    else send_read (with_amount_error "Enter a quantity greater than zero.")
        (holding_by portfolio_id form form.holding_id) (parse_quantity form.quantity)

pub record CategoryForm : Type 0 where
  pub category_id : Option String
  pub name : String
  pub kind : CategoryKind
  pub color : String
  pub icon : String

abbrev pub category_by : CategoryForm → Option String → Mutation
category_by form none = category_mutation (
    create_category (record {
      name = trimmed form.name;
      kind = form.kind;
      color = form.color;
      icon = unless_null (or_null (trimmed form.icon));
    }))
category_by form (some id) = category_mutation (
    update_category id (record {
      name = some (trimmed form.name);
      kind = some form.kind;
      color = some form.color;
      icon = some (or_null (trimmed form.icon));
    }))

-- `handleSubmit` of a category.
unfoldable pub category_submission : CategoryForm → Submission
category_submission form = send_named form.name (category_by form form.category_id)

pub record ContactForm : Type 0 where
  pub contact_id : Option String
  pub name : String
  pub type : ContactType
  pub default_category_id : String
  pub avatar : Option String

abbrev pub contact_by : ContactForm → Option String → Mutation
contact_by form none = contact_mutation (
    create_contact (record {
      name = trimmed form.name;
      type = some form.type;
      avatar = some form.avatar;
      default_category_id = unless_null (or_null form.default_category_id);
    }))
contact_by form (some id) = contact_mutation (
    update_contact id (record {
      name = some (trimmed form.name);
      type = some form.type;
      avatar = some form.avatar;
      default_category_id = some (or_null form.default_category_id);
    }))

-- `handleSubmit` of a contact.
unfoldable pub contact_submission : ContactForm → Submission
contact_submission form = send_named form.name (contact_by form form.contact_id)

-- What the `catch` of a contact shows (`contactErrorMessage`).
pub contact_errors : Outcome → FormErrors
contact_errors outcome = with_error (
    message_of
      ((
        "AVATAR_INVALID",
        "That image couldn't be saved. Please try a smaller one (PNG, JPEG, or WebP under 64KB).",
      )
        ∷ [])
      "Couldn't save this contact. Please try again." (detail_of outcome))
