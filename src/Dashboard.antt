-- ===== src/Dashboard.antt =====
-- The dashboard's money logic (web/src/features/dashboard).
pub mod Balances
pub mod BalanceSeries
