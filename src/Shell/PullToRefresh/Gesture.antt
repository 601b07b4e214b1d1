-- ===== src/Shell/PullToRefresh/Gesture.antt =====
-- When a whole gesture, a touch with its moves and its release, refreshes.
use pecunia.Prelude.{
  ℕ, zero, suc, ◌+◌, ◌≡◌, refl, ap, ◌∙◌, inl, inr, Bool, true, false, not, ◌&&◌, ◌||◌, Option, none,
  some, List, [], ◌∷◌, arith, ltb, ◌==◌, if◌then◌else◌, Bool-cases,
}
use pecunia.Prelude.Int.{ℤ, ◌-ℤ◌, ltb_ℤ, leb_ℤ}
use pecunia.Shell.PullToRefresh.{
  Pull, pull_threshold, reset, released, on_touch_start, on_touch_move, on_touch_end,
}

-- A move: the container's `scrollTop`, and where the finger is.
abbrev pub Move : Type 0
Move = ℕ × Option ℤ

pub on_touch_moves : List Move → Pull → Pull
unfolding on_touch_move
on_touch_moves [] s = s
on_touch_moves (m ∷ ms) s = on_touch_moves ms (on_touch_move m.0 m.1 s)

-- The container was at its top at every move.
abbrev pub all_at_top : List Move → Bool
all_at_top [] = true
all_at_top (m ∷ ms) = m.0 == 0 && all_at_top ms

-- Where the finger was last seen.
abbrev pub last_seen : ℤ → List Move → ℤ
last_seen y [] = y
last_seen y ((scroll_top, none) ∷ ms) = last_seen y ms
last_seen y ((scroll_top, some z) ∷ ms) = last_seen z ms

abbrev pub or_last : Option ℤ → ℤ → ℤ
or_last none y = y
or_last (some z) y = z

abbrev armed : ℤ → ℤ → Pull → Pull
armed start last s = record {
  refreshing = s.refreshing;
  start_y = some start;
  last_y = some last;
  refreshes = s.refreshes;
}

moves-reset : (ms : List Move) (s : Pull) → on_touch_moves ms (reset s) ≡ reset s
unfolding on_touch_moves
moves-reset [] s = refl
moves-reset (m ∷ ms) s = moves-reset ms s

-- The moves keep the start and the finger's last position, or drop the gesture.
moves-armed :
    (ms : List Move) (start last : ℤ) (s : Pull)
    → on_touch_moves ms (armed start last s)
      ≡ (if all_at_top ms then armed start (last_seen last ms) s else reset s)
unfolding on_touch_moves on_touch_move
moves-armed [] start last s = refl
moves-armed ((zero, none) ∷ ms) start last s = moves-armed ms start last s
moves-armed ((zero, some z) ∷ ms) start last s = moves-armed ms start z s
moves-armed ((suc n, touch) ∷ ms) start last s =
    let above : ltb 0 (suc n) ≡ true = ground arith in
    let not_top : (suc n == 0) ≡ false = ground arith in rw (above, not_top) (moves-reset ms s)

-- What a gesture that starts armed at a position leaves.
abbrev pub outcome : Bool → Pull → Pull
outcome pulled s = record {
  refreshing = if pulled then true else s.refreshing;
  start_y = none;
  last_y = none;
  refreshes = if pulled then s.refreshes + 1 else s.refreshes;
}

-- The release of a gesture whose finger travelled the distance.
release-outcome :
    (start end : ℤ) (touch : Option ℤ) (s : Pull)
    → released start touch (armed start end s)
      ≡ outcome (ltb_ℤ pull_threshold (or_last touch end -ℤ start)) s
release-outcome start end none s = elim (Bool-cases (leb_ℤ (end -ℤ start) pull_threshold)) [
  | inl e ↦ let f : ltb_ℤ pull_threshold (end -ℤ start) ≡ false = ground arith in rw (e, f) refl
  | inr e ↦ let f : ltb_ℤ pull_threshold (end -ℤ start) ≡ true = ground arith in rw (e, f) refl
]
release-outcome start end (some z) s = elim (Bool-cases (leb_ℤ (z -ℤ start) pull_threshold)) [
  | inl e ↦ let f : ltb_ℤ pull_threshold (z -ℤ start) ≡ false = ground arith in rw (e, f) refl
  | inr e ↦ let f : ltb_ℤ pull_threshold (z -ℤ start) ≡ true = ground arith in rw (e, f) refl
]

end-outcome :
    (kept : Bool) (start end : ℤ) (touch : Option ℤ) (s : Pull)
    → on_touch_end touch (if kept then armed start end s else reset s)
      ≡ outcome (kept && ltb_ℤ pull_threshold (or_last touch end -ℤ start)) s
unfolding on_touch_end
end-outcome true start end touch s = release-outcome start end touch s
end-outcome false start end touch s = refl

-- A touch that starts at a position while the container and the page are at their tops, its moves
-- and its release refresh exactly once if the container stayed at its top and the finger was
-- released, or was last seen, more than 64 pixels below its start, and otherwise not at all; the
-- gesture is over either way.
pub gesture-outcome :
    (start : ℤ) (moves : List Move) (release : Option ℤ) (s : Pull)
    → on_touch_end release (on_touch_moves moves (on_touch_start 0 true (some start) s))
      ≡ outcome
          (all_at_top moves
            && ltb_ℤ pull_threshold (or_last release (last_seen start moves) -ℤ start))
          s
unfolding on_touch_start on_touch_end
gesture-outcome start moves release s =
    ap (on_touch_end release) (moves-armed moves start start s)
    ∙ end-outcome (all_at_top moves) start (last_seen start moves) release s

-- A touch that starts away from the container's or the page's top never refreshes.
pub gesture_not_at_top :
    (scroll_top : ℕ) (page_at_top : Bool) (touch : Option ℤ) (moves : List Move)
    (release : Option ℤ) (s : Pull)
    → (ltb 0 scroll_top || not page_at_top) ≡ true
    → on_touch_end release (on_touch_moves moves (on_touch_start scroll_top page_at_top touch s))
      ≡ outcome false s
unfolding on_touch_start on_touch_end
gesture_not_at_top scroll_top page_at_top touch moves release s h =
    rw h (ap (on_touch_end release) (moves-reset moves s))
