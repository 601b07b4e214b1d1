-- ===== src/Api/Errors.antt =====
-- What a call throws for a response that is not successful.
use pecunia.Prelude.{ℕ, ◌≡◌, refl, ◌≢◌, true, false, Option, none, some, arith}
use pecunia.Api.{
  Json, null, boolean, number, string, array, object, property, ApiError, by_detail,
  parse_error_body, error_of, threw, response, outcome_of, is_ok,
}
use pecunia.Prelude.Dict.{is_some}

-- The error for a status: it carries the status, and field errors only under the marker of a
-- validation error that is no 401.
pub record Reports (status : ℕ) (e : ApiError) : Type 0 where
  pub same_status : e.status ≡ status
  pub marked : is_some e.field_errors ≡ true → (e.detail ≡ "VALIDATION_ERROR") × (status ≢ 401)

-- What the parsed body tells before the status 401 is told apart.
abbrev Parsed : ℕ → ApiError → Type 0
Parsed status e =
    (e.status ≡ status) × (is_some e.field_errors ≡ true → e.detail ≡ "VALIDATION_ERROR")

by_detail-Parsed : (status : ℕ) (detail : Option Json) → Parsed status (by_detail status detail)
by_detail-Parsed status none = (refl, λ h. cc)
by_detail-Parsed status (some null) = (refl, λ h. cc)
by_detail-Parsed status (some (boolean b)) = (refl, λ h. cc)
by_detail-Parsed status (some (number n)) = (refl, λ h. cc)
by_detail-Parsed status (some (string s)) = (refl, λ h. cc)
by_detail-Parsed status (some (array items)) = (refl, λ h. refl)
by_detail-Parsed status (some (object entries)) = (refl, λ h. cc)

parse_error_body-Parsed :
    (status : ℕ) (body : Option Json) → Parsed status (parse_error_body status body)
unfolding parse_error_body
parse_error_body-Parsed status none = (refl, λ h. cc)
parse_error_body-Parsed status (some body) = by_detail-Parsed status (property "detail" body)

error_of-Reports : (status : ℕ) (e : ApiError) → Parsed status e → Reports status (error_of e)
error_of-Reports status e p = record {
  same_status = ground (arith, p.0);
  marked = λ h. ground (arith, p.0, p.1);
}

-- A response whose status is not from 200 to 299 makes the call throw an error of that status,
-- whatever its body; the error has field errors only with the detail VALIDATION_ERROR, and never
-- for a 401.
pub outcome_of-Reports :
    (status : ℕ) (body : Option Json)
    → is_ok status ≡ false
    → (e : ApiError) × (outcome_of (response status body) ≡ threw e) × Reports status e
unfolding outcome_of
outcome_of-Reports status body h = (
  error_of (parse_error_body status body),
  rw h refl,
  error_of-Reports status (parse_error_body status body) (parse_error_body-Parsed status body),
)
