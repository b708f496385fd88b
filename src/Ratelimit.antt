-- ===== src/Ratelimit.antt =====
-- backend/app/ratelimit: backoff, daily caps and token buckets.
pub mod Backoff
pub mod Caps
pub mod Buckets
