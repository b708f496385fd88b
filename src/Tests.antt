-- ===== src/Tests.antt =====
-- Concrete runs: for each theorem with hypotheses an input at which they hold.
mod Floats
mod Samples
mod Limits
mod Jobs
mod Records
mod Schemas
mod Reports
mod Uploads
mod Studio
mod Templates
