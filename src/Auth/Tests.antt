-- ===== src/Auth/Tests.antt =====
-- Calls and sessions on concrete replies.
use pecunia.Prelude.{String, ◌≡◌, refl, true, false, none, some, [], ◌∷◌}
use pecunia.Prelude.Int.{pos}
use pecunia.Api.{
  Json, number, string, object, field, no_fields, array, item, no_items, ApiError, response, threw,
  returned, outcome_of, perform_fetch,
}
use pecunia.Api.Errors.{Reports, outcome_of-Reports}
use pecunia.Api.Exchange.{Exchange}
use pecunia.Auth.{World, loading, authed, get_options, api_fetch, boot}
use pecunia.Auth.Calls.{Ends, api_fetch-Calls}
use pecunia.Auth.Boot.{Settled, boot-Settled}

abbrev detail : String → Json
detail s = object (field "detail" (string s) no_fields)

abbrev user : Json
user = object (field "email" (string "ana@example.com") no_fields)

abbrev token : Json
token = object (
    field "access_token" (string "t2")
      (field "expires_in" (number (pos 900)) (field "user" user no_fields)))

-- A session with an expired token: the call gets a 401, the refresh succeeds, the replay too.
abbrev expired : World
expired = record {
  auth = record { token = some "t1"; user = some user; status = authed; timer = none };
  mounted = true;
  replies =
      response 401 (some (detail "EXPIRED")) ∷ response 200 (some token) ∷ response 204 none ∷ [];
  sent = [];
}

calls_example :
    Ends expired "/accounts" get_options refl
      (api_fetch "/accounts" get_options expired).0
      (api_fetch "/accounts" get_options expired).1
calls_example = api_fetch-Calls expired "/accounts" get_options refl

-- The replayed call returns.
replay_returns : (api_fetch "/accounts" get_options expired).0 ≡ returned none
unfolding api_fetch perform_fetch
replay_returns = refl

abbrev fresh : World
fresh = record {
  auth = record { token = none; user = none; status = loading; timer = none };
  mounted = false;
  replies =
      response 200 (some token) ∷ response 200 (some (object (field "user" user no_fields))) ∷ [];
  sent = [];
}

boot_example : Settled fresh (boot fresh).auth
boot_example = boot-Settled fresh

boot_authed : (boot fresh).auth.status ≡ authed
unfolding boot perform_fetch
boot_authed = refl

validation_example :
    (e : ApiError) × (outcome_of
        (response 422 (some (object (field "detail" (array (item user no_items)) no_fields))))
      ≡ threw e)
    × Reports 422 e
validation_example =
    outcome_of-Reports 422 (some (object (field "detail" (array (item user no_items)) no_fields)))
      refl
