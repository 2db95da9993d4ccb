-- ===== src/Redis/Availability.antt =====
-- `RedisAvailability` of agent-service/src/agent_service/core/redis.py, beside what Redis holds.
pub data RedisAvailabilityStatus : Type 0 where
  up down disabled : RedisAvailabilityStatus

-- The store, and what the service last saw of it.
pub record World {ℓ} (S : Type ℓ) : Type ℓ where
  pub store : S
  pub status : RedisAvailabilityStatus

module _ {ℓ} {S : Type ℓ} where
  unfoldable pub mark_up : World S → World S
  mark_up w = record w { status = up }

  unfoldable pub mark_down : World S → World S
  mark_down w = record w { status = down }
