-- ===== src/Report.antt =====
-- internal/report: metrics, and the status that the scheduler reports to.
pub mod Metrics
pub mod Dump
pub mod Status
pub mod Bar
pub mod Redraw
