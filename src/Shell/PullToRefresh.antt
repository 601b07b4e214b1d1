-- ===== src/Shell/PullToRefresh.antt =====
-- The pull-to-refresh gesture (web/src/components/layout/usePullToRefresh.ts): its two refs, its
-- flag, and how often it has called `onRefresh`. Positions are whole pixels, `scrollTop` is a
-- natural number. Whether the page is at the top is read when a touch starts.
pub mod Gesture
mod Tests
use pecunia.Prelude.{
  ℕ, ◌+◌, ◌-◌, Bool, true, false, not, ◌||◌, Option, none, some, ltb, if◌then◌else◌,
}
use pecunia.Prelude.Int.{ℤ, pos, ◌-ℤ◌, leb_ℤ}

pub record Pull : Type 0 where
  pub refreshing : Bool
  pub start_y : Option ℤ
  pub last_y : Option ℤ
  pub refreshes : ℕ

abbrev pub pull_threshold : ℤ
pull_threshold = pos 64

abbrev pub reset : Pull → Pull
reset s = record {
  refreshing = s.refreshing;
  start_y = none;
  last_y = none;
  refreshes = s.refreshes;
}

pub on_touch_start : ℕ → Bool → Option ℤ → Pull → Pull
on_touch_start scroll_top page_at_top touch s =
    if ltb 0 scroll_top || not page_at_top then reset s else record {
      refreshing = s.refreshing;
      start_y = touch;
      last_y = touch;
      refreshes = s.refreshes;
    }

abbrev seen : Option ℤ → Option ℤ → Option ℤ
seen none last_y = last_y
seen (some y) last_y = some y

-- A move while a pull is under way.
abbrev moved : ℕ → Option ℤ → Pull → Pull
moved scroll_top touch s = if ltb 0 scroll_top then reset s else record {
  refreshing = s.refreshing;
  start_y = s.start_y;
  last_y = seen touch s.last_y;
  refreshes = s.refreshes;
}

pub on_touch_move : ℕ → Option ℤ → Pull → Pull
on_touch_move scroll_top touch s = elim s.start_y [ none ↦ s | some y ↦ moved scroll_top touch s ]

abbrev distance_from : ℤ → Option ℤ → ℤ
distance_from start none = pos 0
distance_from start (some end) = end -ℤ start

-- The release of a pull that started at the position.
abbrev released : ℤ → Option ℤ → Pull → Pull
released start touch s =
    if leb_ℤ (distance_from start (seen touch s.last_y)) pull_threshold
    then reset s
    else record { refreshing = true; start_y = none; last_y = none; refreshes = s.refreshes + 1 }

pub on_touch_end : Option ℤ → Pull → Pull
on_touch_end touch s = elim s.start_y [ none ↦ reset s | some start ↦ released start touch s ]

-- The `finally` of the refresh.
pub refresh_settles : Pull → Pull
refresh_settles s = record {
  refreshing = false;
  start_y = s.start_y;
  last_y = s.last_y;
  refreshes = s.refreshes;
}
