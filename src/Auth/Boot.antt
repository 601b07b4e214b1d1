-- ===== src/Auth/Boot.antt =====
-- How the mount effect settles the session.
use pecunia.Prelude.{
  true≢false, inl, inr, ◌≡◌, refl, sym, ap, ◌∙◌, Bool, true, false, List, if◌then◌else◌,
}
use mathlib.Core.Path.{subst}
use pecunia.Api.{
  Reply, outcome_of, Json, property, Request, Outcome, returned, threw, network_error, syntax_error,
  type_error, is_unauthorized,
}
use pecunia.Auth.{
  deliver, AuthState, World, authed, anon, cleared, clear_auth, applied, readable, silent_refresh,
  api_fetch, mount, with_auth, with_status, get_options, finish_boot, boot,
}
use pecunia.Auth.Session.{
  Gives, Reads, value, no_value, reading-Reads, finish_boot_failed, Refreshed, renewed, signed_out,
  silent_refresh-Refreshes,
}
use pecunia.Auth.Calls.{
  first_reply, second_reply, third_reply, Calls, answered, refused, renewed_once, api_fetch-Calls,
}

-- Signed in with a token response and the answer of `/auth/me`.
abbrev pub session_of : Json → Json → AuthState → AuthState
session_of token me before = record {
  token = (applied token before).token;
  user = property "user" me;
  status = authed;
  timer = (applied token before).timer;
}

-- The fourth reply of a world.
abbrev fourth_reply : World → Reply
fourth_reply w = (deliver (deliver (deliver (deliver w.replies).1).1).1).0

-- The ways the mount effect settles, by the replies it meets: the first one is to the refresh, the
-- second one to `/auth/me`; if that is a 401, the third one is to another refresh, and the fourth
-- one to `/auth/me` again.
pub data Settled (w : World) : AuthState → Type 0 where
  no_token : ((token : Json) → ¬ Gives (first_reply w) token) → Settled w cleared
  known :
      (token me : Json)
      → Gives (first_reply w) token
      → Gives (second_reply w) me
      → Settled w (session_of token me w.auth)
  no_user :
      (token : Json)
      → Gives (first_reply w) token
      → is_unauthorized (outcome_of (second_reply w)) ≡ false
      → ((me : Json) → ¬ Gives (second_reply w) me)
      → Settled w cleared
  refused_again :
      (token : Json)
      → Gives (first_reply w) token
      → is_unauthorized (outcome_of (second_reply w)) ≡ true
      → ((later : Json) → ¬ Gives (third_reply w) later)
      → Settled w cleared
  known_later :
      (token later me : Json)
      → Gives (first_reply w) token
      → is_unauthorized (outcome_of (second_reply w)) ≡ true
      → Gives (third_reply w) later
      → Gives (fourth_reply w) me
      → Settled w (session_of later me w.auth)
  no_user_later :
      (token later : Json)
      → Gives (first_reply w) token
      → is_unauthorized (outcome_of (second_reply w)) ≡ true
      → Gives (third_reply w) later
      → ((me : Json) → ¬ Gives (fourth_reply w) me)
      → Settled w cleared

unauthorized_fails :
    (o : Outcome) (v : World)
    → is_unauthorized o ≡ true
    → (finish_boot (readable o) v).auth ≡ cleared
unfolding finish_boot clear_auth
unauthorized_fails (returned j) v u = absurd (true≢false (sym u))
unauthorized_fails (threw x) v u = refl
unauthorized_fails network_error v u = refl
unauthorized_fails syntax_error v u = refl
unauthorized_fails type_error v u = refl

module _ (w v : World) (token : Json) (given : Gives (first_reply w) token)
    (renewed_session : v.auth ≡ applied token w.auth)
    (one_reply : v.replies ≡ (deliver w.replies).1) where
  -- The replies that are left after the refresh.
  second : first_reply v ≡ second_reply w
  second = ap (λ (r : List Reply). (deliver r).0) one_reply

  third : second_reply v ≡ third_reply w
  third = ap (λ (r : List Reply). (deliver (deliver r).1).0) one_reply

  fourth : third_reply v ≡ fourth_reply w
  fourth = ap (λ (r : List Reply). (deliver (deliver (deliver r).1).1).0) one_reply

  -- `/auth/me` answers at once.
  at_once :
      (o : Outcome) (a : World)
      → a.auth ≡ v.auth
      → is_unauthorized (outcome_of (first_reply v)) ≡ false
      → Reads (first_reply v) o
      → Settled w (finish_boot o a).auth
  unfolding finish_boot applied
  at_once o a e u (value me g) =
      rw
        (
          ap (λ (s : AuthState). s.token) (e ∙ renewed_session),
          ap (λ (s : AuthState). s.timer) (e ∙ renewed_session),
        )
        (known token me given (rw second at g))
  at_once o a e u (no_value n _ h) =
      rw (finish_boot_failed o a h) (no_user token given (rw second at u) (rw second at n))

  -- `/auth/me` answers the call that is sent once more.
  once_more :
      (o : Outcome) (a : World) (later : Json)
      → a.auth ≡ applied later v.auth
      → is_unauthorized (outcome_of (first_reply v)) ≡ true
      → Gives (second_reply v) later
      → Reads (third_reply v) o
      → Settled w (finish_boot o a).auth
  unfolding finish_boot applied
  once_more o a later e u g (value me k) =
      rw (ap (λ (s : AuthState). s.token) e, ap (λ (s : AuthState). s.timer) e)
        (known_later token later me given (rw second at u) (rw third at g) (rw fourth at k))
  once_more o a later e u g (no_value n _ h) =
      rw (finish_boot_failed o a h)
        (no_user_later token later given (rw second at u) (rw third at g) (rw fourth at n))

  called-Settled :
      (o : Outcome) (a : World) (s : AuthState) (log : List Request)
      → a.auth ≡ s
      → Calls v "/auth/me" get_options o s log
      → Settled w (finish_boot (readable o) a).auth
  called-Settled o a s log q (answered (inl u)) =
      at_once (readable o) a q u (reading-Reads (first_reply v) o refl)
  called-Settled o a s log q (answered (inr k)) = absurd (true≢false (sym k))
  called-Settled o a s log q (refused u k n) =
      rw (unauthorized_fails o a u) (refused_again token given (rw second at u) (rw third at n))
  called-Settled o a s log q (renewed_once u k later g) =
      once_more (readable o) a later q u g (reading-Reads (third_reply v) o refl)

-- What follows the refresh.
settle :
    (w : World) (answer : Bool) (v : World) (a : AuthState)
    → v.auth ≡ a
    → Refreshed w.auth (first_reply w) answer a
    → v.mounted ≡ true
    → v.replies ≡ (deliver w.replies).1
    → Settled w
        (if answer
          then finish_boot
              (readable (api_fetch "/auth/me" get_options v).0)
              (api_fetch "/auth/me" get_options v).1
          else with_auth (with_status anon v.auth) v).auth
settle w true v a q (renewed token g) m l =
    let called = api_fetch-Calls v "/auth/me" get_options m in
    called-Settled w v token g q l (api_fetch "/auth/me" get_options v).0
      (api_fetch "/auth/me" get_options v).1 (api_fetch "/auth/me" get_options v).1.auth called.0
      refl called.2
settle w false v a q (signed_out n) m l =
    subst (λ (s : AuthState). Settled w (with_status anon s)) (sym q) (no_token n)

-- The mount effect never leaves the session loading, and its replies decide how it settles. If the
-- refresh meets a token response, and `/auth/me` a value, the status is authed, with the token and
-- the timer of the response and the user of that value. If `/auth/me` meets a 401, a second refresh
-- and a second `/auth/me` decide in the same way. In every other case no token, user or timer is
-- held, and the status is anon.
pub boot-Settled : (w : World) → Settled w (boot w).auth
unfolding boot
boot-Settled w =
    let s = silent_refresh-Refreshes (mount w) in
    settle w (silent_refresh (mount w)).0 (silent_refresh (mount w)).1
      (silent_refresh (mount w)).1.auth refl s.session s.same_mount s.one_reply
