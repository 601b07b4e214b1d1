-- ===== src/Forms.antt =====
-- The forms (the *Form.tsx files under web/src/features/): what a submit sends, and what the form
-- shows when it does not send or the request fails. A form's state is the text of its fields; a
-- field of an amount is a list of code units, as amount.ts takes it apart.
pub mod Transaction
pub mod Transfer
pub mod Payment
pub mod Goal
pub mod Small
pub mod Reading
pub mod Worth
pub mod Named
pub mod Subscription
pub mod Schedule
mod Tests
mod Examples
use pecunia.Prelude.{ℕ, String, Option, none, some, List, [], ◌∷◌, str_eq, if◌then◌else◌}
use Prim.Native.Char.{code}
use Prim.Native.String
use pecunia.Prelude.Text.{is_space}
use pecunia.Api.{Json, Outcome, returned, threw, network_error, syntax_error, type_error}
use pecunia.Auth.{World}
use pecunia.Hooks.{Mutation, mutation_fn}

-- What a form shows: an error under its amount, under its second amount, and for the whole form.
pub record FormErrors : Type 0 where
  pub amount_error : Option String
  pub second_error : Option String
  pub error : Option String

abbrev pub no_errors : FormErrors
no_errors = record { amount_error = none; second_error = none; error = none }

abbrev pub with_amount_error : String → FormErrors
with_amount_error message = record {
  amount_error = some message;
  second_error = none;
  error = none;
}

abbrev pub with_second_error : String → FormErrors
with_second_error message = record {
  amount_error = none;
  second_error = some message;
  error = none;
}

abbrev pub with_error : String → FormErrors
with_error message = record { amount_error = none; second_error = none; error = some message }

-- What a submit comes to before anything is sent: it returns at once, it shows an error, or it fires
-- a mutation.
pub data Submission : Type 0 where
  stays : Submission
  refused : FormErrors → Submission
  sends : Mutation → Submission

-- How a submit ends: nothing changed, the errors are shown, or `onSuccess` has the answer.
pub data Ending : Type 0 where
  unchanged : Ending
  shows : FormErrors → Ending
  succeeded : Option Json → Ending

abbrev pub settled : (Outcome → FormErrors) → Outcome → Ending
settled catch_errors (returned j) = succeeded j
settled catch_errors (threw e) = shows (catch_errors (threw e))
settled catch_errors network_error = shows (catch_errors network_error)
settled catch_errors syntax_error = shows (catch_errors syntax_error)
settled catch_errors type_error = shows (catch_errors type_error)

-- `handleSubmit` from its checks on, with what its `catch` shows.
unfoldable pub submit : Submission → (Outcome → FormErrors) → World → Ending × World
submit stays catch_errors w = (unchanged, w)
submit (refused errors) catch_errors w = (shows errors, w)
submit (sends m) catch_errors w =
    let (outcome, w1) = mutation_fn m w in (settled catch_errors outcome, w1)

-- The `detail` of an `ApiError`; any other error has none.
abbrev pub detail_of : Outcome → Option String
detail_of (threw e) = some e.detail
detail_of (returned j) = none
detail_of network_error = none
detail_of syntax_error = none
detail_of type_error = none

-- The message of the first code that the detail is, or the form's own.
abbrev pub message_of : List (String × String) → String → Option String → String
message_of codes_and_copy fallback none = fallback
message_of [] fallback (some detail) = fallback
message_of ((c, message) ∷ rest) fallback (some detail) =
    let later = message_of rest fallback (some detail) in if str_eq detail c then message else later

-- `value || null`
abbrev pub or_null : String → Option String
or_null s = if str_eq s "" then none else some s

abbrev pub trim_front : String → String
trim_front String.[] = ""
trim_front (String.◌∷◌ c s) =
    let rest = trim_front s in if is_space (code c) then rest else String.◌∷◌ c s

abbrev pub keep_unless_space : ℕ → String → String → String
keep_unless_space c whole String.[] = if is_space c then "" else whole
keep_unless_space c whole (String.◌∷◌ d s) = whole

abbrev pub trim_back : String → String
trim_back String.[] = ""
trim_back (String.◌∷◌ c s) =
    let rest = trim_back s in keep_unless_space (code c) (String.◌∷◌ c rest) rest

-- `s.trim()`
unfoldable pub trimmed : String → String
trimmed s = trim_back (trim_front s)
