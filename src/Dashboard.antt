-- ===== src/Dashboard.antt =====
-- console/src/components/dashboard and console/src/pages/dashboard-page.tsx.
pub mod Badges
pub mod Metric
pub mod History
pub mod Overview
pub mod Selectors
pub mod Page
mod Examples
