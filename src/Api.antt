-- ===== src/Api.antt =====
-- The fetch wrapper (web/src/lib/api.ts). `fetch` and the server behind it are the list of replies
-- that the requests meet in turn; a reply's body is the JSON value that it parses to, and a
-- request carries its `json` as a value. The bearer token that the registered getter returns is
-- an argument, and so is whether the auth layer has registered its two callbacks.
pub mod Errors
pub mod Exchange
use pecunia.Prelude.{
  ℕ, ◌+◌, ◌-◌, ◌/◌, String, Bool, true, false, not, ◌&&◌, Option, none, some, List, [], ◌∷◌, ◌++◌,
  str_eq, ltb, leb, ◌==◌, if◌then◌else◌,
}
use pecunia.Prelude.Int.{ℤ}
use pecunia.Prelude.Text.{Text, codes}
use pecunia.Prelude.Dict.{Dict, lookup, insert, is_some}

mutual
  pub data Json : Type 0 where
    null : Json
    boolean : Bool → Json
    number : ℤ → Json
    string : String → Json
    array : Items → Json
    object : Fields → Json

  pub data Items : Type 0 where
    no_items : Items
    item : Json → Items → Items

  pub data Fields : Type 0 where
    no_fields : Fields
    field : String → Json → Fields → Fields

abbrev pub find_field : String → Fields → Option Json
find_field key no_fields = none
find_field key (field k j entries) =
    let rest = find_field key entries in if str_eq k key then some j else rest

-- `value.key`: what it reads, where `none` is undefined. Only an object has the properties that
-- the client reads; on null the read throws (`is_null`).
unfoldable pub property : String → Json → Option Json
property key (object entries) = find_field key entries
property key null = none
property key (boolean b) = none
property key (number n) = none
property key (string s) = none
property key (array items) = none

abbrev pub is_null : Json → Bool
is_null null = true
is_null (boolean b) = false
is_null (number n) = false
is_null (string s) = false
is_null (array items) = false
is_null (object entries) = false

pub record ApiFieldError : Type 0 where
  pub loc : Items
  pub msg : String

-- `ApiError`; the status 401 is an `UnauthorizedError`.
pub record ApiError : Type 0 where
  pub status : ℕ
  pub detail : String
  pub field_errors : Option (List ApiFieldError)

-- `isRawFieldError`: an array is an object too.
pub is_raw_field_error : Json → Bool
is_raw_field_error null = false
is_raw_field_error (boolean b) = false
is_raw_field_error (number n) = false
is_raw_field_error (string s) = false
is_raw_field_error (array items) = true
is_raw_field_error (object entries) = true

abbrev pub loc_of : Option Json → Items
loc_of (some (array items)) = items
loc_of (some null) = no_items
loc_of (some (boolean b)) = no_items
loc_of (some (number n)) = no_items
loc_of (some (string s)) = no_items
loc_of (some (object entries)) = no_items
loc_of none = no_items

abbrev pub msg_of : Option Json → String
msg_of (some (string s)) = s
msg_of (some null) = "Invalid value."
msg_of (some (boolean b)) = "Invalid value."
msg_of (some (number n)) = "Invalid value."
msg_of (some (array items)) = "Invalid value."
msg_of (some (object entries)) = "Invalid value."
msg_of none = "Invalid value."

abbrev pub field_error : Json → ApiFieldError
field_error j = record { loc = loc_of (property "loc" j); msg = msg_of (property "msg" j) }

-- The array's elements that are objects, mapped in order.
pub field_errors_of : Items → List ApiFieldError
field_errors_of no_items = []
field_errors_of (item j items) =
    let rest = field_errors_of items in if is_raw_field_error j then field_error j ∷ rest else rest

abbrev pub failure : ℕ → String → Option (List ApiFieldError) → ApiError
failure status detail field_errors = record {
  status = status;
  detail = detail;
  field_errors = field_errors;
}

abbrev pub by_detail : ℕ → Option Json → ApiError
by_detail status (some (string s)) = failure status s none
by_detail status (some (array items)) =
    failure status "VALIDATION_ERROR" (some (field_errors_of items))
by_detail status (some null) = failure status "UNKNOWN_ERROR" none
by_detail status (some (boolean b)) = failure status "UNKNOWN_ERROR" none
by_detail status (some (number n)) = failure status "UNKNOWN_ERROR" none
by_detail status (some (object entries)) = failure status "UNKNOWN_ERROR" none
by_detail status none = failure status "UNKNOWN_ERROR" none

-- `parseErrorBody`, with the status that the error is made of. A body that is not JSON (`none`)
-- and one whose `detail` cannot be read get the default.
unfoldable pub parse_error_body : ℕ → Option Json → ApiError
unfolding property field_errors_of
parse_error_body status none = failure status "UNKNOWN_ERROR" none
parse_error_body status (some body) = by_detail status (property "detail" body)

-- The options of a call, its headers under their lower-case names.
pub record ApiFetchOptions : Type 0 where
  pub method : Option String
  pub headers : Dict Text
  pub body : Option Text
  pub json : Option Json
  pub skip_auth_retry : Bool

pub data RequestBody : Type 0 where
  raw : Option Text → RequestBody
  encoded : Json → RequestBody

-- What `fetch` is given; the path is without the prefix `/api/v1`, and every request includes the
-- credentials.
pub record Request : Type 0 where
  pub path : String
  pub method : Option String
  pub headers : Dict Text
  pub body : RequestBody

abbrev pub has_header : String → Dict Text → Bool
has_header name headers = is_some (lookup name headers)

abbrev pub with_header : String → Text → Dict Text → Dict Text
with_header name value headers =
    if has_header name headers then headers else insert name value headers

abbrev pub content_headers : Option Json → Dict Text → Dict Text
content_headers none headers = headers
content_headers (some json) headers = with_header "content-type" (codes "application/json") headers

-- No header for no token, and none for the empty string either.
abbrev pub token_headers : Option String → Dict Text → Dict Text
token_headers none headers = headers
token_headers (some token) headers =
    if str_eq token ""
    then headers
    else with_header "authorization" (codes "Bearer " ++ codes token) headers

abbrev pub final_body : ApiFetchOptions → RequestBody
final_body opts = elim opts.json [ none ↦ raw opts.body | some json ↦ encoded json ]

-- The request that a call with the token sends.
unfoldable pub request : Option String → String → ApiFetchOptions → Request
request token path opts = record {
  path = path;
  method = opts.method;
  headers = token_headers token (content_headers opts.json opts.headers);
  body = final_body opts;
}

-- What a request meets: `fetch` rejects, or there is a response.
pub data Reply : Type 0 where
  rejected : Reply
  response : ℕ → Option Json → Reply

-- How a call ends: with a value (`none` is undefined), or with an error of the API, a request
-- that failed, a body of a successful response that is not JSON, or, in its caller, a property
-- that is read off undefined or null.
pub data Outcome : Type 0 where
  returned : Option Json → Outcome
  threw : ApiError → Outcome
  network_error : Outcome
  syntax_error : Outcome
  type_error : Outcome

abbrev pub is_ok : ℕ → Bool
is_ok status = leb 200 status && ltb status 300

abbrev pub parsed : Option Json → Outcome
parsed none = syntax_error
parsed (some j) = returned (some j)

-- `new UnauthorizedError(detail)` for the status 401, which drops the field errors.
abbrev pub error_of : ApiError → ApiError
error_of e = if e.status == 401 then failure 401 e.detail none else e

-- `performFetch` after the response, less the refresh.
unfoldable pub outcome_of : Reply → Outcome
unfolding parse_error_body
outcome_of rejected = network_error
outcome_of (response status body) =
    if is_ok status
    then if status == 204 then returned none else parsed body
    else threw (error_of (parse_error_body status body))

abbrev pub is_unauthorized : Outcome → Bool
is_unauthorized (threw e) = e.status == 401
is_unauthorized (returned j) = false
is_unauthorized network_error = false
is_unauthorized syntax_error = false
is_unauthorized type_error = false

-- What the wrapper uses of the world around it: the registered getter, whether a handler is
-- registered, and `fetch`.
pub record Transport (W : Type 0) : Type 0 where
  pub token_of : W → Option String
  pub has_handler : W → Bool
  pub send : Request → W → Reply × W

module _ {W : Type 0} (transport : Transport W) where
  -- `performFetch` for a replay: no refresh is attempted.
  unfoldable pub attempt : String → ApiFetchOptions → W → Outcome × W
  unfolding outcome_of request
  attempt path opts w =
      let (reply, w1) = transport.send (request (transport.token_of w) path opts) w in
      (outcome_of reply, w1)

  -- What follows the handler's answer.
  abbrev pub retry_if : Bool → Outcome → String → ApiFetchOptions → W → Outcome × W
  retry_if should_retry outcome path opts w =
      let again = attempt path opts w in if should_retry then again else (outcome, w)

  abbrev pub wants_refresh : Bool → Outcome → ApiFetchOptions → W → Bool
  wants_refresh is_retry outcome opts w =
      is_unauthorized outcome
      && (not is_retry && (not opts.skip_auth_retry && transport.has_handler w))

  -- The handler answers whether the call is to be replayed; the replay is made with `is_retry`.
  unfoldable pub perform_fetch : (W → Bool × W) → String → ApiFetchOptions → Bool → W → Outcome × W
  unfolding attempt
  perform_fetch on_unauthorized path opts is_retry w =
      let (outcome, w1) = attempt path opts w in
      let (should_retry, w2) = on_unauthorized w1 in
      if wants_refresh is_retry outcome opts w1
      then retry_if should_retry outcome path opts w2
      else (outcome, w1)
