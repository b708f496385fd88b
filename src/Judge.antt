-- ===== src/Judge.antt =====
-- backend/app/judge: the decisions around the judging of a call.
pub mod Options
pub mod Audio
pub mod Scope
pub mod Routing
pub mod Schema
pub mod Clients
pub mod Prompts
pub mod Tables
pub mod Service
pub mod Clustering
pub mod Tuning
pub mod Studio
