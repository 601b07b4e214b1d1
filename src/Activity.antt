-- ===== src/Activity.antt =====
-- The activity feed's sentences (web/src/lib/activity.ts). Parameters are the fields of a JSON
-- object, and its strings are texts once read. A template key is in ASCII, and so are the letters
-- that are turned into capitals. A string literal's template is its concatenation. Which currencies
-- and locales `Intl.NumberFormat` accepts is an argument; it throws a RangeError for the others.
pub mod Sentences
mod Tests
use pecunia.Prelude.{
  Bool, ℕ, ◌+◌, ◌-◌, String, ◌&&◌, ◌||◌, Option, none, some, [], ◌∷◌, ◌++◌, map, str_eq, leb, ◌==◌,
  if◌then◌else◌,
}
use pecunia.Prelude.Int.{ℤ, pos}
use pecunia.Prelude.Text.{Text, codes, trim}
use pecunia.Money.{Intl, format_money}
use pecunia.Api.{Json, null, boolean, number, string, array, object, Fields, find_field}

abbrev string_or : Option Json → String → String
string_or (some (string s)) fallback = if str_eq s "" then fallback else s
string_or (some null) fallback = fallback
string_or (some (boolean b)) fallback = fallback
string_or (some (number n)) fallback = fallback
string_or (some (array elements)) fallback = fallback
string_or (some (object entries)) fallback = fallback
string_or none fallback = fallback

-- `str`
pub text_param : Fields → String → String → String
text_param params key fallback = string_or (find_field key params) fallback

abbrev number_or_zero : Option Json → ℤ
number_or_zero (some (number n)) = n
number_or_zero (some null) = pos 0
number_or_zero (some (boolean b)) = pos 0
number_or_zero (some (string s)) = pos 0
number_or_zero (some (array elements)) = pos 0
number_or_zero (some (object entries)) = pos 0
number_or_zero none = pos 0

-- `num`
pub number_param : Fields → String → ℤ
number_param params key = number_or_zero (find_field key params)

-- `money`, none for the RangeError.
pub money_param :
    Intl → (String → Option String → Bool) → Fields → String → String → Option String → Option Text
unfolding number_param
money_param intl accepts params key currency locale =
    if accepts currency locale
    then some (format_money intl (number_param params key) currency locale)
    else none

-- `s.startsWith(prefix) ? s.slice(prefix.length) : s`
abbrev strip : Text → Text → Text → Text
strip [] s whole = s
strip (c ∷ prefix) [] whole = whole
strip (c ∷ prefix) (d ∷ s) whole = if c == d then strip prefix s whole else whole

-- `s.split(".").join(" ").split("_").join(" ")`
abbrev spaced : ℕ → ℕ
spaced c = if c == b'.' || c == b'_' then 32 else c

abbrev upper : ℕ → ℕ
upper c = if leb b'a' c && leb c b'z' then c - 32 else c

abbrev sentence : Text → Text
sentence [] = codes "Activity recorded."
sentence (c ∷ s) = (upper c ∷ s) ++ codes "."

pub humanize_template_key : Text → Text
unfolding trim
humanize_template_key template_key =
    sentence (trim (map spaced (strip (codes "activity.") template_key template_key)))

-- The texts of the renderers, with what stands between the parameters.
abbrev quoted : String → String → Text
quoted kind name = codes kind ++ (codes " \"" ++ (codes name ++ codes "\""))

abbrev with_type : Text → String → Option Json → Text
with_type subject verb (some (string type)) =
    if str_eq type ""
    then subject ++ (codes verb ++ codes ".")
    else subject ++ (codes verb ++ (codes " (" ++ (codes type ++ codes ").")))
with_type subject verb (some null) = subject ++ (codes verb ++ codes ".")
with_type subject verb (some (boolean b)) = subject ++ (codes verb ++ codes ".")
with_type subject verb (some (number n)) = subject ++ (codes verb ++ codes ".")
with_type subject verb (some (array elements)) = subject ++ (codes verb ++ codes ".")
with_type subject verb (some (object entries)) = subject ++ (codes verb ++ codes ".")
with_type subject verb none = subject ++ (codes verb ++ codes ".")

-- What a rendering comes to: a text, the parameters themselves, or an error that it throws.
pub data Rendered : Type 0 where
  text : Text → Rendered
  same_params range_error type_error : Rendered

-- The template keys that have a renderer, those that the object of the renderers inherits from
-- `Object.prototype`, and any other key.
pub data Template : Type 0 where
  account_created transaction_created transaction_imported asset_created : Template
  valuation_changed project_created target_reached budget_created : Template
  inherited_to_string inherited_constructor inherited_other : Template
  unknown : Template

-- The members of `Object.prototype` that are no renderer of a text: without a `this` each of them
-- throws, and `__proto__` is no function.
abbrev pub throws_inherited : String → Bool
throws_inherited key =
    str_eq key "__proto__"
    || (str_eq key "hasOwnProperty"
        || (str_eq key "isPrototypeOf"
            || (str_eq key "propertyIsEnumerable"
                || (str_eq key "toLocaleString"
                    || (str_eq key "valueOf"
                        || (str_eq key "__defineGetter__"
                            || (str_eq key "__defineSetter__"
                                || (str_eq key "__lookupGetter__"
                                    || str_eq key "__lookupSetter__"))))))))

abbrev pub inherited_of : String → Template
inherited_of key =
    if str_eq key "toString"
    then inherited_to_string
    else if str_eq key "constructor"
    then inherited_constructor
    else if throws_inherited key
    then inherited_other
    else unknown

-- `RENDERERS[templateKey]`
pub template_of : String → Template
template_of key =
    if str_eq key "activity.account.created"
    then account_created
    else if str_eq key "activity.transaction.created"
    then transaction_created
    else if str_eq key "activity.transaction.imported"
    then transaction_imported
    else if str_eq key "activity.asset.created"
    then asset_created
    else if str_eq key "activity.asset.valuation_changed"
    then valuation_changed
    else if str_eq key "activity.project.created"
    then project_created
    else if str_eq key "activity.project.target_reached"
    then target_reached
    else if str_eq key "activity.budget.created"
    then budget_created
    else inherited_of key

-- A sentence with an amount at its end.
abbrev amounting : Text → String → Option Text → Rendered
amounting subject middle none = range_error
amounting subject middle (some amount) = text (subject ++ (codes middle ++ (amount ++ codes ".")))

-- A sentence with an amount before its end.
abbrev changing : Text → Option Text → Option Text → Rendered
changing asset none to = range_error
changing asset (some from) to =
    amounting (asset ++ (codes " valuation changed · " ++ from)) " → " to

-- `RENDERERS`, by the template; another key is humanized.
pub render :
    Intl → (String → Option String → Bool) → Template → Text → Fields → Option String → Rendered
unfolding text_param money_param humanize_template_key
render intl accepts account_created key params locale = text (
    with_type (quoted "Account" (text_param params "name" "—")) " created"
      (find_field "type" params))
render intl accepts transaction_created key params locale =
    amounting (quoted "Transaction" (text_param params "description" "—")) " recorded — "
      (money_param intl accepts params "amount_minor" (text_param params "currency" "USD") locale)
render intl accepts transaction_imported key params locale =
    amounting (quoted "Transaction" (text_param params "description" "—")) " imported — "
      (money_param intl accepts params "amount_minor" (text_param params "currency" "USD") locale)
render intl accepts asset_created key params locale =
    text (
      with_type (quoted "Asset" (text_param params "name" "—")) " added" (find_field "type" params))
render intl accepts valuation_changed key params locale =
    changing (codes (text_param params "asset" "—"))
      (money_param intl accepts params "from" (text_param params "currency" "USD") locale)
      (money_param intl accepts params "to" (text_param params "currency" "USD") locale)
render intl accepts project_created key params locale =
    amounting (quoted "Project" (text_param params "name" "—")) " created — target " (
      money_param intl accepts params "target_amount_minor" (text_param params "currency" "USD")
        locale)
render intl accepts target_reached key params locale =
    amounting (quoted "Project" (text_param params "project" "—")) " reached its target of "
      (money_param intl accepts params "target" (text_param params "currency" "USD") locale)
render intl accepts budget_created key params locale =
    amounting (quoted "Budget" (text_param params "name" "—")) " created — "
      (money_param intl accepts params "amount_minor" (text_param params "currency" "USD") locale)
render intl accepts inherited_to_string key params locale = text (codes "[object Undefined]")
render intl accepts inherited_constructor key params locale = same_params
render intl accepts inherited_other key params locale = type_error
render intl accepts unknown key params locale = text (humanize_template_key key)

pub render_activity :
    Intl → (String → Option String → Bool) → String → Fields → Option String → Rendered
unfolding render template_of
render_activity intl accepts template_key params locale =
    render intl accepts (template_of template_key) (codes template_key) params locale
