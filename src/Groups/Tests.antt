-- ===== src/Groups/Tests.antt =====
-- Two days of items, one of them seen twice.
use pecunia.Prelude.{refl, ℕ, ◌≡◌, List, [], ◌∷◌, map, filter}
use pecunia.Prelude.Text.{Text, codes}
use pecunia.Groups.{group_of, group_by_day}
use pecunia.Groups.Items.{of_day, days_of, AllDistinct}
use pecunia.Groups.Partition.{group_by_day_lem}

-- An item is its day and a number.
abbrev day : Text × ℕ → Text
day item = item.0

abbrev entries : List (Text × ℕ)
entries = (codes "2026-09-11", 3) ∷ (codes "2026-09-10", 2) ∷ (codes "2026-09-11", 1) ∷ []

groups_example :
    (group_by_day day (codes "2026-09-12") (codes "2026-09-11") (λ item. item.0) entries
      ≡ map
          (λ k.
            group_of day
              (codes "2026-09-12")
              (codes "2026-09-11")
              (λ item. item.0)
              (k, filter (of_day day k) entries))
          (days_of day entries))
    × AllDistinct day (days_of day entries)
groups_example =
    group_by_day_lem day (codes "2026-09-12") (codes "2026-09-11") (λ item. item.0) entries

two_days : days_of day entries ≡ codes "2026-09-11" ∷ codes "2026-09-10" ∷ []
two_days = refl
