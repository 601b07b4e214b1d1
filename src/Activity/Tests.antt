-- ===== src/Activity/Tests.antt =====
-- An imported transaction without a description, and a template key with no renderer.
use pecunia.Prelude.{String, Bool, false, true, Option, str_eq, ◌≡◌, refl, none, some}
use pecunia.Prelude.Int.{negsuc}
use pecunia.Prelude.Text.{codes, trim}
use pecunia.Money.{Intl}
use pecunia.Api.{Fields, field, no_fields, number, string}
use pecunia.Activity.{
  text, range_error, type_error, text_param, humanize_template_key, render_activity,
}
use pecunia.Activity.Sentences.{Renders, render_activity-Renders}

abbrev intl : Intl
intl = record {
  minimum_fraction_digits = λ locale currency. some 2;
  format = λ locale currency r. codes currency;
}

abbrev params : Fields
params = field "amount_minor" (number (negsuc 99)) no_fields

abbrev accepts : String → Option String → Bool
accepts currency locale = str_eq currency "USD"

activity_example :
    Renders false true (render_activity intl accepts "activity.transaction.imported" params none)
unfolding text_param
activity_example = render_activity-Renders intl accepts "activity.transaction.imported" params none

-- A malformed currency, and keys that every object has.
throws :
    (render_activity intl accepts "activity.budget.created"
        (field "currency" (string "dollar") no_fields)
        none
      ≡ range_error)
    × (render_activity intl accepts "__proto__" no_fields none ≡ type_error)
    × (render_activity intl accepts "toString" no_fields none ≡ text (codes "[object Undefined]"))
unfolding render_activity text_param
throws = (refl, refl, refl)

humanized : humanize_template_key (codes "activity.workspace.renamed") ≡ codes "Workspace renamed."
unfolding humanize_template_key trim
humanized = refl
