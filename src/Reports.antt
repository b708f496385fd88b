-- ===== src/Reports.antt =====
-- backend/app/reports: how the report of a call is shown.
pub mod Template
