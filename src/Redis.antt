-- ===== src/Redis.antt =====
-- What the service keeps in Redis: agent-service/src/agent_service/core/redis_keys.py, core/redis.py
-- and services/rate_limiter.py.
pub mod Keys
pub mod Availability
pub mod RateLimiter
