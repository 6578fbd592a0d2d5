-- ===== src/Limits.antt =====
-- The limits the server puts on its callers: request rates (lib/rate-limiter.js,
-- lib/handlers/_rotate-ratelimit.js) and fragment quotas (lib/memory/QuotaChecker.js).
pub mod RateLimiter
pub mod Rotate
pub mod Quota
