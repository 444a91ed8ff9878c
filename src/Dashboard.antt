-- ===== src/Dashboard.antt =====
-- internal/dashboard/dashboard.go.
pub mod Logs
pub mod Metrics
pub mod Routes
mod Tests
