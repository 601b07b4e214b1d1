-- ===== src/Lib.antt =====
-- Pecunia's web client, modelled and verified: the client's own logic, which is TypeScript under
-- web/src. Screens only draw what this logic computes.
--
-- The parts, and how they meet:
--   The screens hold amounts as integers in minor units. lib/money.ts formats them, lib/amount.ts
--   reads and prefills amount fields. Totals and net worth are computed per currency; charts and
--   progress bars are drawn from them. The forms turn their fields into payloads of the hooks. The
--   hooks read and change the server's resources and tell the query client which keys a change makes
--   stale. Every request goes through lib/api.ts, which asks the session of lib/auth.tsx for a
--   refresh after a 401.
--
-- Files, by the code they model (the paths are under web/src/):
--   Prelude        shared types, lemmas, integers, fractions, texts, maps over currencies
--   Money          lib/money.ts (get_digits .. format_money)
--   Money.Amount   lib/amount.ts: amountToMinor, signedAmountToMinor, minorToAmountInput
--   Totals         features/_shared/totals.ts: sumByCurrency
--   Dashboard.Balances       features/dashboard/balances.ts
--   Dashboard.BalanceSeries  features/dashboard/balanceSeries.ts
--   Progress       budgetProgress.ts, funding.ts, payoff.ts, goalProgress.ts, debtPayoff.ts,
--                  creditCardUsage.ts and safeToSpendBar.ts under features/
--   Charts         components/charts/chartMath.ts
--   Forecast       features/forecast/forecastCopy.ts, with shapes of useForecast.ts
--   Api            lib/api.ts: performFetch, parseErrorBody
--   Auth           lib/auth.tsx: the provider's state and operations; Auth.Interleaved takes them as
--                  steps that can wait for each other
--   Shell          components/layout/usePullToRefresh.ts and components/ui/imageTransform.ts
--   Queries        lib/queries.ts: qk and financeQueryKeys
--   Transactions   features/transactions/useTransactions.ts: the filters
--   Period         features/analytics/period.ts
--   Activity       lib/activity.ts
--   Format         lib/format.ts: formatDate
--   Groups         lib/dayGroups.ts
--   Setup          features/setup/useSetupDraft.ts
--   Hooks          the use*.ts hooks under features/: one module per resource with its payloads,
--                  mutations and invalidations; Hooks.Reads has the key and the request of the queries
--   Hooks.SubscriptionOrder, Hooks.ScheduleOrder   the two selects that sort a page
--   Forms          the submits of TransactionForm.tsx, TransferForm.tsx, PaymentForm.tsx, GoalForm.tsx,
--                  ValuationForm.tsx, PriceUpdateForm.tsx, ProjectItemForm.tsx and BudgetForm.tsx
--   Forms.Worth    the submits of AccountForm.tsx, AssetForm.tsx and ProjectForm.tsx
--   Forms.Named    of PortfolioForm.tsx, HoldingForm.tsx, CategoryForm.tsx and ContactForm.tsx
--   Forms.Subscription, Forms.Schedule   SubscriptionForm.tsx and ScheduleForm.tsx
--   Quantity       features/portfolio/quantity.ts: parseQuantity
-- A function of the source has the same name in snake case, and so has a field.
--
-- How the code is modelled:
--   Amounts are integers without a bound; the source's are doubles, exact up to 2 ^ 53. Quotients
--   are exact fractions, compared by cross-multiplication: a double's rounding is left out. Strings
--   that are taken apart are lists of code units. A JavaScript object or Map by currency is an
--   association list in insertion order. The browser's Intl, fetch and canvas are parameters or the
--   list of replies to come, with what the code relies on as hypotheses.
--   State is passed on explicitly. The replay of a request is not a loop, so a call needs no fuel.
--   Two functions take fuel: the decimal print of a number, one more than the number, and the
--   logarithm of a power of ten, the power itself; a lemma says for each that the fuel suffices.
--
-- Not modelled: LoanForm.tsx, whose interest rate interest.ts rounds as a double, the screens and
-- routes but for their queries, how TanStack Query caches and runs what the hooks give it (its
-- prefix match is a parameter with its law), the parsing of dates, parseMoney (it searches a
-- formatter's output), the session's React effects beyond their order, and the server.
pub mod Prelude
pub mod Progress
pub mod Money
pub mod Totals
pub mod Dashboard
pub mod Charts
pub mod Forecast
pub mod Forms
pub mod Api
pub mod Auth
pub mod Shell
pub mod Quantity
pub mod Queries
pub mod Transactions
pub mod Period
pub mod Activity
pub mod Format
pub mod Groups
pub mod Hooks
pub mod Setup
