-- ===== src/Auth/Interleaved/SingleFlight.antt =====
-- At most one refresh is under way, and what a late one does to a session that has ended.
use pecunia.Prelude.{◌≤◌, ◌≡◌, refl, ◌≢◌, true, false, none, some, arith, if◌then◌else◌}
use pecunia.Api.{Json, property, is_null, returned}
use pecunia.Auth.{cleared, anon, applied, clear_auth, string_of, finish_refresh}
use pecunia.Auth.Interleaved.{
  Tab, begin_refresh, end_refresh, end_logout, Step, refresh_begins, refresh_ends, login_ends,
  adopts, logout_ends, boot_ends, Reach, here, after,
}

-- The requests under way are those that the ref knows of.
abbrev pub Counted : Tab → Type 0
Counted s = s.pending ≡ (if s.in_flight then 1 else 0)

Step-Counted : {s t : Tab} → Step s t → Counted s → Counted t
unfolding begin_refresh end_refresh end_logout
Step-Counted (refresh_begins s) h = ground arith
Step-Counted (refresh_ends s o e) h = ground arith
Step-Counted (login_ends s o) h = h
Step-Counted (adopts s token) h = h
Step-Counted (logout_ends s) h = h
Step-Counted (boot_ends s o) h = h

-- From a tab with no refresh under way, in whatever order its operations go on, at most one
-- refresh request is under way, and one is under way just when the ref holds its promise.
pub reach-Counted :
    {start s : Tab}
    → start.in_flight ≡ false
    → start.pending ≡ 0
    → Reach start s
    → Counted s × (s.pending ≤ 1)
reach-Counted {start} {s} e h r = (counted r, bound (counted r))
  where
    counted : {u : Tab} → Reach start u → Counted u
    counted here = ground arith
    counted (after q step) = Step-Counted step (counted q)

    bound : Counted s → s.pending ≤ 1
    bound c = ground arith

-- A sign-out that ends while a refresh is under way is one step, and leaves no token, user or timer;
-- but if the refresh then succeeds, which is the next step, the tab holds the new token and user
-- and has set its timer, while its status is anon.
pub logout_then_late_refresh :
    (s : Tab) (token : Json)
    → is_null token ≡ false
    → s.in_flight ≡ true
    → Step s (end_logout s)
      × ((end_logout s).world.auth ≡ cleared)
      × Step (end_logout s) (end_refresh (returned (some token)) (end_logout s))
      × ((end_refresh (returned (some token)) (end_logout s)).world.auth.token
          ≡ string_of (property "access_token" token))
      × ((end_refresh (returned (some token)) (end_logout s)).world.auth.user
          ≡ property "user" token)
      × ((end_refresh (returned (some token)) (end_logout s)).world.auth.timer ≢ none)
      × ((end_refresh (returned (some token)) (end_logout s)).world.auth.status ≡ anon)
unfolding end_logout end_refresh finish_refresh clear_auth applied
logout_then_late_refresh s token n e = (
  logout_ends s,
  refl,
  refresh_ends (end_logout s) (returned (some token)) e,
  rw n refl,
  rw n refl,
  rw n (λ q. cc),
  rw n refl,
)
