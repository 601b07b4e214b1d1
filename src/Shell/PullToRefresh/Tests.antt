-- ===== src/Shell/PullToRefresh/Tests.antt =====
-- A pull of 80 pixels, and one on a page that is scrolled down.
use pecunia.Prelude.{◌≡◌, refl, true, false, ◌&&◌, none, some, List, [], ◌∷◌}
use pecunia.Prelude.Int.{pos, ◌-ℤ◌, ltb_ℤ}
use pecunia.Shell.PullToRefresh.{Pull, pull_threshold, on_touch_start, on_touch_end}
use pecunia.Shell.PullToRefresh.Gesture.{
  Move, on_touch_moves, all_at_top, last_seen, or_last, outcome, gesture-outcome,
  gesture_not_at_top,
}

abbrev idle : Pull
idle = record { refreshing = false; start_y = none; last_y = none; refreshes = 0 }

abbrev moves : List Move
moves = (0, some (pos 40)) ∷ (0, none) ∷ (0, some (pos 90)) ∷ []

gesture_example :
    on_touch_end none (on_touch_moves moves (on_touch_start 0 true (some (pos 10)) idle))
    ≡ outcome
        (all_at_top moves
          && ltb_ℤ pull_threshold (or_last none (last_seen (pos 10) moves) -ℤ pos 10))
        idle
gesture_example = gesture-outcome (pos 10) moves none idle

not_at_top_example :
    on_touch_end none (on_touch_moves moves (on_touch_start 0 false (some (pos 10)) idle))
    ≡ outcome false idle
not_at_top_example = gesture_not_at_top 0 false (some (pos 10)) moves none idle refl
