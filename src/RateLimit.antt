-- ===== src/RateLimit.antt =====
-- app/security_rate_limit.py: the two fixed-window limiters.
pub mod Memory
pub mod Redis
pub mod Build
