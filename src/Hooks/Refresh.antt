-- ===== src/Hooks/Refresh.antt =====
-- The goals that a moved balance leaves as they are.
use pecunia.Prelude.{String, ◌≡◌, refl, ap, ◌∙◌, true, false, List, [], ◌∷◌}
use pecunia.Queries.{Query, account, goals, loan, key_of}
use pecunia.Queries.Resources.{name_of, resource_of}
use pecunia.Queries.Coverage.{
  QueryClient, MatchesPrefix, reached, any_names, singles, reached-singles,
}
use pecunia.Hooks.{Mutation}
use pecunia.Hooks.Planned.{schedule_mutation, post_schedule, skip_schedule}
use pecunia.Hooks.Transfers.{
  transfer_mutation, TransferMutation, create_transfer, update_transfer, delete_transfer,
}
use pecunia.Hooks.Transactions.{transaction_mutation, apply_to_loan}
use pecunia.Hooks.BankSync.{bank_sync_mutation, LinkPayload, link_account, sync_now, reconcile}

module _ (client : QueryClient) (law : MatchesPrefix client) where
  -- The mutation refreshes the query, but not the goals.
  abbrev pub MissesGoals : Mutation → Query → Type 0
  MissesGoals m query =
      (reached client m.invalidates (key_of query) ≡ true)
      × (reached client m.invalidates (key_of goals) ≡ false)

  misses_goals :
      (m : Mutation) (names : List String) (query : Query)
      → m.invalidates ≡ singles names
      → any_names names (name_of (resource_of query)) ≡ true
      → any_names names "goals" ≡ false
      → MissesGoals m query
  misses_goals m names query e h k = (
    ap (λ keys. reached client keys (key_of query)) e ∙ reached-singles client law names query ∙ h,
    ap (λ keys. reached client keys (key_of goals)) e ∙ reached-singles client law names goals ∙ k,
  )

  of_transfer :
      (m : TransferMutation)
      → (transfer_mutation m).invalidates ≡ singles ("transfers" ∷ "transactions" ∷ "accounts" ∷ [])
  unfolding key_of
  of_transfer (create_transfer p) = refl
  of_transfer (update_transfer id p) = refl
  of_transfer (delete_transfer id) = refl

  -- With a client that matches prefixes, every mutation of a transfer and every posted or skipped
  -- schedule refreshes each account, but not the goals, though a goal may stand on an account's
  -- balance.
  pub moved_balances-goals :
      (m : TransferMutation) (schedule_id id : String)
      → MissesGoals (transfer_mutation m) (account id)
        × MissesGoals (schedule_mutation (post_schedule schedule_id)) (account id)
        × MissesGoals (schedule_mutation (skip_schedule schedule_id)) (account id)
  unfolding key_of
  moved_balances-goals m schedule_id id = (
    misses_goals (transfer_mutation m) ("transfers" ∷ "transactions" ∷ "accounts" ∷ []) (account id)
        (of_transfer m) refl refl,
    misses_goals (schedule_mutation (post_schedule schedule_id))
        ("planned" ∷ "transactions" ∷ "accounts" ∷ "analytics" ∷ []) (account id) refl refl refl,
    misses_goals (schedule_mutation (skip_schedule schedule_id))
        ("planned" ∷ "transactions" ∷ "accounts" ∷ "analytics" ∷ []) (account id) refl refl refl,
  )

  -- With a client that matches prefixes, a transaction that is applied to a loan refreshes that
  -- loan, and a bank link, a synchronization and a reconciliation refresh each account; none of
  -- them refreshes the goals, though the bank's figures move balances that a goal may stand on.
  pub moved_sources-goals :
      (transaction_id loan_id link_id id : String) (payload : LinkPayload)
      → MissesGoals (transaction_mutation (apply_to_loan transaction_id loan_id)) (loan loan_id)
        × MissesGoals (bank_sync_mutation (link_account payload)) (account id)
        × MissesGoals (bank_sync_mutation sync_now) (account id)
        × MissesGoals (bank_sync_mutation (reconcile link_id)) (account id)
  unfolding key_of
  moved_sources-goals transaction_id loan_id link_id id payload =
      let synced = "bank-sync" ∷ "accounts" ∷ "transactions" ∷ "analytics" ∷ [] in
      (
        misses_goals (transaction_mutation (apply_to_loan transaction_id loan_id))
            ("transactions" ∷ "loans" ∷ []) (loan loan_id) refl refl refl,
        misses_goals (bank_sync_mutation (link_account payload)) synced (account id) refl refl refl,
        misses_goals (bank_sync_mutation sync_now) synced (account id) refl refl refl,
        misses_goals (bank_sync_mutation (reconcile link_id)) synced (account id) refl refl refl,
      )
