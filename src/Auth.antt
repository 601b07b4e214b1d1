-- ===== src/Auth.antt =====
-- The session (web/src/lib/auth.tsx): the provider's refs and state, with the replies that are
-- still to come and the requests that were sent. A user is the JSON value that the server sent.
-- The timer is the delay in milliseconds that it was set with. Here every operation runs to its
-- end before the next; `Auth.Interleaved` is about operations that wait for each other.
pub mod Session
pub mod Calls
pub mod Ends
pub mod Boot
pub mod Interleaved
mod Tests
use pecunia.Prelude.{
  ◌+◌, ◌-◌, ◌*◌, ◌/◌, String, Bool, true, false, Option, none, some, List, [], ◌∷◌, ◌++◌,
  if◌then◌else◌,
}
use pecunia.Prelude.Int.{ℤ, pos, ◌-ℤ◌, ◌*ℤ◌, ltb_ℤ}
use pecunia.Api.{
  Json, string, object, field, no_fields, property, is_null, ApiFetchOptions, Request, Reply,
  rejected, Outcome, returned, threw, network_error, syntax_error, type_error, Transport,
  perform_fetch, number,
}

pub data AuthStatus : Type 0 where
  loading authed anon : AuthStatus

pub record AuthState : Type 0 where
  pub token : Option String
  pub user : Option Json
  pub status : AuthStatus
  pub timer : Option ℤ

pub record World : Type 0 where
  pub auth : AuthState
  -- The effect has registered the getter and the handler.
  pub mounted : Bool
  pub replies : List Reply
  pub sent : List Request

abbrev pub with_auth : AuthState → World → World
with_auth auth w = record { auth = auth; mounted = w.mounted; replies = w.replies; sent = w.sent }

-- The request goes to the end of the log and takes the next reply; with no reply left `fetch`
-- rejects.
abbrev pub deliver : List Reply → Reply × List Reply
deliver [] = (rejected, [])
deliver (reply ∷ replies) = (reply, replies)

abbrev pub send : Request → World → Reply × World
send r w = (
  (deliver w.replies).0,
  record {
    auth = w.auth;
    mounted = w.mounted;
    replies = (deliver w.replies).1;
    sent = w.sent ++ (r ∷ []);
  },
)

-- The getter, once it is registered, reads the token ref.
abbrev pub transport : Transport World
transport = record {
  token_of = λ w. if w.mounted then w.auth.token else none;
  has_handler = λ w. w.mounted;
  send = send;
}

abbrev pub cleared : AuthState
cleared = record { token = none; user = none; status = anon; timer = none }

-- `clearAuth`, with `clearRefreshTimer`
pub clear_auth : World → World
clear_auth w = with_auth cleared w

-- `Math.max(expiresInSeconds - 60, 0) * 1000`; without a number `setTimeout` takes 0.
pub delay_ms : Option ℤ → ℤ
delay_ms none = pos 0
delay_ms (some seconds) =
    if ltb_ℤ (seconds -ℤ pos 60) (pos 0) then pos 0 else (seconds -ℤ pos 60) *ℤ pos 1000

abbrev pub string_of : Option Json → Option String
string_of (some (string s)) = some s
string_of o = none

abbrev pub number_of : Option Json → Option ℤ
number_of (some (number n)) = some n
number_of o = none

-- `applyTokenResponse`, with `scheduleRefresh`; the status stays.
pub applied : Json → AuthState → AuthState
unfolding delay_ms property
applied token auth = record {
  token = string_of (property "access_token" token);
  user = property "user" token;
  status = auth.status;
  timer = some (delay_ms (number_of (property "expires_in" token)));
}

abbrev pub with_status : AuthStatus → AuthState → AuthState
with_status status auth = record {
  token = auth.token;
  user = auth.user;
  status = status;
  timer = auth.timer;
}

abbrev with_user : Option Json → AuthState → AuthState
with_user user auth = record {
  token = auth.token;
  user = user;
  status = auth.status;
  timer = auth.timer;
}

-- The value of a call whose properties are read: undefined and null make the read throw.
abbrev pub readable : Outcome → Outcome
readable (returned none) = type_error
readable (returned (some j)) = if is_null j then type_error else returned (some j)
readable (threw e) = threw e
readable network_error = network_error
readable syntax_error = syntax_error
readable type_error = type_error

abbrev pub post : Option Json → ApiFetchOptions
post json = record {
  method = some "POST";
  headers = [];
  body = none;
  json = json;
  skip_auth_retry = true;
}

-- The auth module's own calls opt out of the handler, so none is passed on.
abbrev pub no_handler : World → Bool × World
no_handler w = (false, w)

pub finish_refresh : Outcome → World → Bool × World
unfolding applied clear_auth
finish_refresh (returned (some token)) w = (true, with_auth (applied token w.auth) w)
finish_refresh (returned none) w = (false, clear_auth w)
finish_refresh (threw e) w = (false, clear_auth w)
finish_refresh network_error w = (false, clear_auth w)
finish_refresh syntax_error w = (false, clear_auth w)
finish_refresh type_error w = (false, clear_auth w)

pub silent_refresh : World → Bool × World
unfolding finish_refresh
silent_refresh w =
    let (outcome, w1) = perform_fetch transport no_handler "/auth/refresh" (post none) false w in
    finish_refresh (readable outcome) w1

unfoldable pub api_fetch : String → ApiFetchOptions → World → Outcome × World
unfolding silent_refresh
api_fetch path opts w = perform_fetch transport silent_refresh path opts false w

-- `adoptSession` of a token response, and what `login` does with its own.
pub adopt_session : Json → World → World
unfolding applied
adopt_session token w = with_auth (with_status authed (applied token w.auth)) w

pub finish_login : Outcome → World → Outcome × World
unfolding adopt_session
finish_login (returned (some token)) w = (returned none, adopt_session token w)
finish_login outcome w = (outcome, w)

pub login : String → String → World → Outcome × World
unfolding api_fetch finish_login
login email password w =
    let credentials =
      object (field "email" (string email) (field "password" (string password) no_fields)) in
    let (outcome, w1) = api_fetch "/auth/login" (post (some credentials)) w in
    finish_login (readable outcome) w1

-- Whatever the request comes to, the session is cleared.
pub logout : World → World
unfolding api_fetch clear_auth
logout w = clear_auth (api_fetch "/auth/logout" (post none) w).1

pub logout_all : World → World
unfolding api_fetch clear_auth
logout_all w = clear_auth (api_fetch "/auth/logout-all" (post none) w).1

abbrev pub get_options : ApiFetchOptions
get_options = record {
  method = none;
  headers = [];
  body = none;
  json = none;
  skip_auth_retry = false;
}

pub finish_boot : Outcome → World → World
unfolding clear_auth property
finish_boot (returned (some me)) w =
    with_auth (with_status authed (with_user (property "user" me) w.auth)) w
finish_boot (returned none) w = clear_auth w
finish_boot (threw e) w = clear_auth w
finish_boot network_error w = clear_auth w
finish_boot syntax_error w = clear_auth w
finish_boot type_error w = clear_auth w

abbrev pub mount : World → World
mount w = record { auth = w.auth; mounted = true; replies = w.replies; sent = w.sent }

-- The mount effect, while the provider stays mounted.
pub boot : World → World
unfolding silent_refresh api_fetch finish_boot
boot w =
    let (refreshed, w1) = silent_refresh (mount w) in
    let (outcome, w2) = api_fetch "/auth/me" get_options w1 in
    if refreshed then finish_boot (readable outcome) w2 else with_auth (with_status anon w1.auth) w1

-- The mount effect's clean-up.
pub unmount : World → World
unmount w = record {
  auth = record { token = w.auth.token; user = w.auth.user; status = w.auth.status; timer = none };
  mounted = false;
  replies = w.replies;
  sent = w.sent;
}
