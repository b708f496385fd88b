-- ===== src/Orchestration.antt =====
-- backend/app/orchestration: the durable queue and the engine that works it.
pub mod States
pub mod Retry
pub mod Queue
pub mod World
pub mod Handlers
pub mod Engine
pub mod Webhook
pub mod Calls
