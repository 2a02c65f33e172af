-- ===== src/Report.antt =====
-- internal/report: the reports of a session. What is modelled is the difference of two machines.
pub mod Diff
mod Examples
