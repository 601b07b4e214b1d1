-- ===== src/Shell.antt =====
-- Interaction helpers of the shared components (web/src/components).
pub mod PullToRefresh
pub mod Avatar
