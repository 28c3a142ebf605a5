-- ===== src/Http.antt =====
-- arvel.http: the rate limiter.
pub mod RateLimiter
