-- ===== src/Auth/Interleaved.antt =====
-- The session while its operations wait for each other: the parts of the operations that run
-- without a pause, in any order. `pending` counts the refresh requests that are under way.
pub mod SingleFlight
mod Tests
use pecunia.Prelude.{ℕ, ◌+◌, ◌-◌, ◌≡◌, Bool, true, false, if◌then◌else◌}
use pecunia.Api.{Json, Outcome}
use pecunia.Auth.{
  World, readable, finish_refresh, finish_login, finish_boot, adopt_session, clear_auth,
}

pub record Tab : Type 0 where
  pub world : World
  -- `refreshInFlightRef` holds a promise.
  pub in_flight : Bool
  pub pending : ℕ

-- `silentRefresh` up to its request: a second caller shares the request that is under way.
pub begin_refresh : Tab → Tab
begin_refresh s =
    if s.in_flight then s else record { world = s.world; in_flight = true; pending = s.pending + 1 }

-- `silentRefresh` from the outcome of its request on.
pub end_refresh : Outcome → Tab → Tab
end_refresh outcome s = record {
  world = (finish_refresh (readable outcome) s.world).1;
  in_flight = false;
  pending = s.pending - 1;
}

abbrev pub on_world : (World → World) → Tab → Tab
on_world f s = record { world = f s.world; in_flight = s.in_flight; pending = s.pending }

-- The `finally` of `logout` and `logoutAll`.
unfoldable pub end_logout : Tab → Tab
unfolding clear_auth
end_logout s = on_world clear_auth s

pub data Step : Tab → Tab → Type 0 where
  -- The mount effect, the timer, or a 401 asks for a refresh.
  refresh_begins : (s : Tab) → Step s (begin_refresh s)
  refresh_ends : (s : Tab) (o : Outcome) → s.in_flight ≡ true → Step s (end_refresh o s)
  login_ends : (s : Tab) (o : Outcome) → Step s (on_world (λ w. (finish_login (readable o) w).1) s)
  adopts : (s : Tab) (token : Json) → Step s (on_world (adopt_session token) s)
  logout_ends : (s : Tab) → Step s (end_logout s)
  boot_ends : (s : Tab) (o : Outcome) → Step s (on_world (finish_boot (readable o)) s)

pub data Reach (start : Tab) : Tab → Type 0 where
  here : Reach start start
  after : {s t : Tab} → Reach start s → Step s t → Reach start t
