-- ===== src/Hooks/SubscriptionOrder.antt =====
-- The order of the subscriptions that the screen shows (`statusRank` and `select` of
-- web/src/features/subscriptions/useSubscriptions.ts). How two dates compare under `localeCompare`
-- is an argument.
use pecunia.Prelude.{
  true≢false, false≢true, String, ◌≡◌, refl, Bool, true, false, not, Option, List, ◌++◌, filter,
  if◌then◌else◌,
}
use pecunia.Prelude.Int.{◌-ℤ◌, ℤ, pos, leb_ℤ, eqb_ℤ}
use pecunia.Prelude.Sort.{stays, sort}
use pecunia.Prelude.Sort.Grouped.{sort_by_groups}
use pecunia.Hooks.Subscriptions.{BillingFrequency, SubscriptionStatus, active, canceled}

-- `SubscriptionOut`
pub record SubscriptionOut : Type 0 where
  pub id : String
  pub name : String
  pub logo : Option String
  pub amount_minor : ℤ
  pub currency : String
  pub billing_frequency : BillingFrequency
  pub next_renewal : String
  pub started_on : Option String
  pub status : SubscriptionStatus
  pub contact_id : Option String
  pub account_id : Option String
  pub category_id : Option String
  pub is_demo : Bool
  pub created_at : String
  pub monthly_minor : ℤ
  pub annual_minor : ℤ

-- `SubscriptionPage`
pub record SubscriptionPage : Type 0 where
  pub items : List SubscriptionOut
  pub next_cursor : Option String

abbrev pub status_rank : SubscriptionStatus → ℤ
status_rank active = pos 0
status_rank canceled = pos 1

abbrev pub or_by_date : ℤ → ℤ → ℤ
or_by_date by_status by_date = if eqb_ℤ by_status (pos 0) then by_date else by_status

-- The comparator.
abbrev pub compare_subscriptions : (String → String → ℤ) → SubscriptionOut → SubscriptionOut → ℤ
compare_subscriptions locale_compare a b =
    or_by_date (status_rank a.status -ℤ status_rank b.status)
      (locale_compare a.next_renewal b.next_renewal)

-- `select`
unfoldable pub select_subscriptions : (String → String → ℤ) → SubscriptionPage → SubscriptionPage
select_subscriptions locale_compare page = record {
  items = sort (compare_subscriptions locale_compare) page.items;
  next_cursor = page.next_cursor;
}

abbrev pub is_live : SubscriptionStatus → Bool
is_live active = true
is_live canceled = false

module _ (locale_compare : String → String → ℤ) where
  -- Whether one status may stand in front of another, where the dates compare so.
  abbrev may_lead : SubscriptionStatus → SubscriptionStatus → ℤ → Bool
  may_lead s t by_date = leb_ℤ (or_by_date (status_rank s -ℤ status_rank t) by_date) (pos 0)

  live_leads :
      (s t : SubscriptionStatus) (d : ℤ)
      → is_live s ≡ true
      → is_live t ≡ false
      → may_lead s t d ≡ true
  unfolding ◌-ℤ◌
  live_leads active active d h k = absurd (true≢false k)
  live_leads active canceled d h k = refl
  live_leads canceled active d h k = absurd (true≢false k)
  live_leads canceled canceled d h k = absurd (false≢true h)

  canceled_follows :
      (s t : SubscriptionStatus) (d : ℤ)
      → is_live s ≡ false
      → is_live t ≡ true
      → may_lead s t d ≡ false
  unfolding ◌-ℤ◌
  canceled_follows active t d h k = absurd (true≢false h)
  canceled_follows canceled active d h k = refl
  canceled_follows canceled canceled d h k = absurd (false≢true k)

  by_date_alone :
      (s t : SubscriptionStatus) (d : ℤ) → is_live s ≡ is_live t → may_lead s t d ≡ leb_ℤ d (pos 0)
  unfolding ◌-ℤ◌
  by_date_alone active active d h = refl
  by_date_alone active canceled d h = cc
  by_date_alone canceled active d h = cc
  by_date_alone canceled canceled d h = refl

  abbrev pub by_renewal : SubscriptionOut → SubscriptionOut → ℤ
  by_renewal a b = locale_compare a.next_renewal b.next_renewal

  -- The active subscriptions come first and the canceled ones after them, each group sorted by its
  -- dates of renewal. The cursor stays.
  pub select_subscriptions-groups :
      (page : SubscriptionPage)
      → ((select_subscriptions locale_compare page).items
          ≡ sort by_renewal (filter (λ s. is_live s.status) page.items)
            ++ sort by_renewal (filter (λ s. not (is_live s.status)) page.items))
        × ((select_subscriptions locale_compare page).next_cursor ≡ page.next_cursor)
  unfolding select_subscriptions
  select_subscriptions-groups page = (
    sort_by_groups (stays (compare_subscriptions locale_compare)) (stays by_renewal)
        (λ s. is_live s.status) (λ a b h k. live_leads a.status b.status (by_renewal a b) h k)
        (λ a b h k. canceled_follows a.status b.status (by_renewal a b) h k)
        (λ a b h. by_date_alone a.status b.status (by_renewal a b) h) page.items,
    refl,
  )
