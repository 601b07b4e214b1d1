-- ===== src/Auth/Ends.antt =====
-- What signing in, signing out and the mount effect leave of the session.
use pecunia.Prelude.{
  String, ◌≡◌, refl, sym, ap, ◌∙◌, ◌≢◌, Bool, true, false, Option, none, some, [], ◌∷◌, ◌++◌,
  if◌then◌else◌,
}
use mathlib.Core.Path.{subst}
use pecunia.Api.{
  Json, is_null, string, object, field, no_fields, Outcome, returned, threw, network_error,
  syntax_error, type_error, attempt,
}
use pecunia.Api.Exchange.{perform_fetch_opt_out}
use pecunia.Auth.{
  AuthState, World, authed, transport, cleared, clear_auth, applied, post, readable, silent_refresh,
  api_fetch, adopt_session, finish_login, login, logout, logout_all,
}
use pecunia.Auth.Session.{sent_by, attempt-SendsOne}

-- A call of the auth module sends one request and does not touch the session.
own_call :
    (path : String) (json : Option Json) (w : World)
    → api_fetch path (post json) w ≡ attempt transport path (post json) w
unfolding api_fetch
own_call path json w = perform_fetch_opt_out transport silent_refresh path (post json) w refl

-- Signing out, here and everywhere, leaves no token, user or timer, whatever the server answers,
-- and sends exactly one request, to the operation's own path, with the token that was held.
pub logout_clears :
    (w : World)
    → ((logout w).auth ≡ cleared)
      × ((logout w).sent ≡ w.sent ++ (sent_by w "/auth/logout" (post none) ∷ []))
      × ((logout_all w).auth ≡ cleared)
      × ((logout_all w).sent ≡ w.sent ++ (sent_by w "/auth/logout-all" (post none) ∷ []))
unfolding logout logout_all clear_auth
logout_clears w = (
  refl,
  ap (λ (r : Outcome × World). r.1.sent) (own_call "/auth/logout" none w)
      ∙ (attempt-SendsOne "/auth/logout" (post none) w).one_request,
  refl,
  ap (λ (r : Outcome × World). r.1.sent) (own_call "/auth/logout-all" none w)
      ∙ (attempt-SendsOne "/auth/logout-all" (post none) w).one_request,
)

abbrev pub signed_in : Json → AuthState → AuthState
signed_in token auth = record {
  token = (applied token auth).token;
  user = (applied token auth).user;
  status = authed;
  timer = (applied token auth).timer;
}

-- The ways a login ends: signed in with the token response, or refused with the session as it was.
pub data LoggedIn (before : AuthState) : Outcome → AuthState → Type 0 where
  accepted :
      (token : Json)
      → is_null token ≡ false
      → LoggedIn before (returned none) (signed_in token before)
  rejected_with : (o : Outcome) → o ≢ returned none → LoggedIn before o before

finish_login-LoggedIn :
    (o : Outcome) (w : World)
    → LoggedIn w.auth (finish_login (readable o) w).0 (finish_login (readable o) w).1.auth
unfolding finish_login adopt_session
finish_login-LoggedIn (returned none) w = rejected_with type_error (λ e. cc)
finish_login-LoggedIn (returned (some j)) w = go (is_null j) refl
  where
    read : Bool → Outcome
    read b = if b then type_error else returned (some j)

    go :
        (b : Bool)
        → is_null j ≡ b
        → LoggedIn w.auth (finish_login (read b) w).0 (finish_login (read b) w).1.auth
    go true e = rejected_with type_error (λ e. cc)
    go false e = accepted j e
finish_login-LoggedIn (threw e) w = rejected_with (threw e) (λ e. cc)
finish_login-LoggedIn network_error w = rejected_with network_error (λ e. cc)
finish_login-LoggedIn syntax_error w = rejected_with syntax_error (λ e. cc)
finish_login-LoggedIn type_error w = rejected_with type_error (λ e. cc)

-- If a login returns, the session is the token response's, with the status
-- authed; if it throws, the session is as it was.
pub login-LoggedIn :
    (email password : String) (w : World)
    → LoggedIn w.auth (login email password w).0 (login email password w).1.auth
unfolding login
login-LoggedIn email password w =
    let json =
      some (object (field "email" (string email) (field "password" (string password) no_fields))) in
    let c = attempt transport "/auth/login" (post json) w in
    let s = attempt-SendsOne "/auth/login" (post json) w in
    subst
      (λ (r : Outcome × World).
        LoggedIn w.auth (finish_login (readable r.0) r.1).0
          (finish_login (readable r.0) r.1).1.auth)
      (sym (own_call "/auth/login" json w))
      (subst
        (λ (a : AuthState).
          LoggedIn a (finish_login (readable c.0) c.1).0 (finish_login (readable c.0) c.1).1.auth)
        s.same_session (finish_login-LoggedIn c.0 c.1))
