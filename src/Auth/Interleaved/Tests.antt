-- ===== src/Auth/Interleaved/Tests.antt =====
-- A tab that signs out while it refreshes.
use pecunia.Prelude.{◌≤◌, ◌≡◌, refl, ◌≢◌, true, false, none, some, []}
use pecunia.Prelude.Int.{pos}
use pecunia.Api.{returned, Json, property, number, string, object, field, no_fields}
use pecunia.Auth.{cleared, authed, anon, string_of}
use pecunia.Auth.Interleaved.{
  Step, end_logout, end_refresh, Tab, begin_refresh, here, after, refresh_begins,
}
use pecunia.Auth.Interleaved.SingleFlight.{Counted, reach-Counted, logout_then_late_refresh}

abbrev idle : Tab
idle = record {
  world = record {
    auth = record { token = some "t1"; user = none; status = authed; timer = some (pos 840000) };
    mounted = true;
    replies = [];
    sent = [];
  };
  in_flight = false;
  pending = 0;
}

abbrev busy : Tab
busy = record { world = idle.world; in_flight = true; pending = 1 }

abbrev token : Json
token =
    object (field "access_token" (string "t2") (field "expires_in" (number (pos 900)) no_fields))

single_flight_example :
    Counted (begin_refresh (begin_refresh idle))
    × ((begin_refresh (begin_refresh idle)).pending ≤ 1)
single_flight_example =
    reach-Counted {start = idle} {s = begin_refresh (begin_refresh idle)} refl refl
      (after (after here (refresh_begins idle)) (refresh_begins (begin_refresh idle)))

late_refresh_example :
    Step busy (end_logout busy)
    × ((end_logout busy).world.auth ≡ cleared)
    × Step (end_logout busy) (end_refresh (returned (some token)) (end_logout busy))
    × ((end_refresh (returned (some token)) (end_logout busy)).world.auth.token
        ≡ string_of (property "access_token" token))
    × ((end_refresh (returned (some token)) (end_logout busy)).world.auth.user
        ≡ property "user" token)
    × ((end_refresh (returned (some token)) (end_logout busy)).world.auth.timer ≢ none)
    × ((end_refresh (returned (some token)) (end_logout busy)).world.auth.status ≡ anon)
late_refresh_example = logout_then_late_refresh busy token refl refl
