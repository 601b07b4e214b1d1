-- ===== src/Hooks/Settings.antt =====
-- The mutations outside the resources' own hooks: the monthly budget
-- (web/src/features/dashboard/useDashboard.ts), a session that is revoked
-- (web/src/features/settings/SessionsPanel.tsx) and the demo data that are removed
-- (web/src/components/layout/DemoChip.tsx).
use pecunia.Prelude.{String, Option, List, [], ◌∷◌, ◌++◌}
use pecunia.Prelude.Int.{ℤ}
use pecunia.Api.{number}
use pecunia.Queries.{Key, key_of, me, sessions, demo, finance_query_keys}
use pecunia.Hooks.{Mutation, given, nullable, template, analytics_prefix, put_to, delete_at}

abbrev pub after_demo_removal : List Key
after_demo_removal = finance_query_keys ++ (key_of demo ∷ [])

pub data SettingsMutation : Type 0 where
  set_monthly_budget : Option ℤ → SettingsMutation
  revoke_session : String → SettingsMutation
  remove_demo : SettingsMutation

abbrev pub set_monthly_budget_mutation : Option ℤ → Mutation
set_monthly_budget_mutation monthly_budget_minor =
    put_to "/settings/monthly-budget"
      (given "monthly_budget_minor" (nullable number monthly_budget_minor) ∷ [])
      (analytics_prefix ∷ key_of me ∷ [])

abbrev pub revoke_session_mutation : String → Mutation
revoke_session_mutation id =
    delete_at (template ("/auth/sessions/" ∷ id ∷ [])) (key_of sessions ∷ [])

abbrev pub remove_demo_mutation : Mutation
remove_demo_mutation = delete_at "/demo" after_demo_removal

abbrev pub settings_mutation : SettingsMutation → Mutation
settings_mutation (set_monthly_budget monthly_budget_minor) =
    set_monthly_budget_mutation monthly_budget_minor
settings_mutation (revoke_session id) = revoke_session_mutation id
settings_mutation remove_demo = remove_demo_mutation
