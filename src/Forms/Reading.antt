-- ===== src/Forms/Reading.antt =====
-- What the submits of the forms share that read one value: nothing is sent from an incomplete form,
-- and a value that cannot be read is shown as an error.
use pecunia.Prelude.{
  true≢false, String, List, [], ◌∷◌, str_eq, ◌≡◌, refl, sym, ap, ◌∙◌, ◌↔◌, Bool, true, false,
  Option, none, some, if◌then◌else◌,
}
use pecunia.Hooks.{Mutation}
use pecunia.Forms.{with_amount_error, with_error, FormErrors, Submission, stays, refused, sends}

-- The message of a detail under the amount (`amountFieldError`).
abbrev pub field_message : List (String × String) → Option String → Option String
field_message field_copy none = none
field_message [] (some detail) = none
field_message ((c, message) ∷ rest) (some detail) =
    let later = field_message rest (some detail) in if str_eq detail c then some message else later

-- What a `catch` shows: the message under the amount if there is one, and else the form's.
abbrev pub shown_errors : Option String → String → FormErrors
shown_errors (some message) callout = with_amount_error message
shown_errors none callout = with_error callout

-- The submit after its reading.
abbrev pub send_read {ℓ} : {A : Type ℓ} → FormErrors → (A → Mutation) → Option A → Submission
send_read errors mutation none = refused errors
send_read errors mutation (some a) = sends (mutation a)

-- The submission sends the mutation exactly when the form is complete and the value is read, and it
-- is the mutation of that value.
abbrev pub SendsOf {ℓ} : {A : Type ℓ} → Submission → Bool → Option A → (A → Mutation) → Type ℓ
SendsOf {A = A} submission incomplete reading mutation =
    (m : Mutation)
    → (submission ≡ sends m)
      ↔ ((incomplete ≡ false) × ((a : A) × (reading ≡ some a) × (m ≡ mutation a)))

send_read-sends {ℓ} :
    {A : Type ℓ} (errors : FormErrors) (mutation : A → Mutation) (m : Mutation) (o : Option A)
    → send_read errors mutation o ≡ sends m
    → (a : A) × (o ≡ some a) × (m ≡ mutation a)
send_read-sends errors mutation m none e = absurd (clash e)
  where
    clash : refused errors ≡ sends m → ⊥
    clash z = cc
send_read-sends errors mutation m (some a) e = (a, refl, inj e)
  where
    inj : sends (mutation a) ≡ sends m → m ≡ mutation a
    inj z = cc

pub sends_of {ℓ} :
    {A : Type ℓ} (errors : FormErrors) (incomplete : Bool) (reading : Option A)
    (mutation : A → Mutation)
    → SendsOf
        (if incomplete then stays else send_read errors mutation reading)
        incomplete
        reading
        mutation
sends_of errors true reading mutation m = (λ e. absurd (stuck e), λ r. absurd (true≢false r.0))
  where
    stuck : stays ≡ sends m → ⊥
    stuck z = cc
sends_of errors false reading mutation m = (
  λ e. (refl, send_read-sends errors mutation m reading e),
  λ r. ap (send_read errors mutation) r.1.1 ∙ ap sends (sym r.1.2),
)
