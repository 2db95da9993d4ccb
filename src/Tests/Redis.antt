-- ===== src/Tests/Redis.antt =====
-- Keys of two users, and requests to the limiter against a small store.
use enterprise_support_agent.Base.{
  ℕ, suc, true, Option, none, some, ◌≡◌, ◌≢◌, refl, arith, ap, if◌then◌else◌, ok,
}
use enterprise_support_agent.Base.Int.{ℤ, pos, negsuc, is_negative}
use enterprise_support_agent.Base.Text.{Text, lit, text_eq, strip, is_space}
use enterprise_support_agent.Redis.Availability.{World, disabled}
use enterprise_support_agent.Redis.Keys.{
  is_segment, validated_segment, RedisKeyBuilder, redis_key_builder, join, order_cache,
  chat_rate_limit, refund_idempotency,
}
use enterprise_support_agent.Redis.Keys.Distinct.{order_cache-injective, purposes_differ}
use enterprise_support_agent.Redis.RateLimiter.{ChatRateLimiter}
use enterprise_support_agent.Redis.RateLimiter.Commands.{RedisCommands, IsRedis}
use enterprise_support_agent.Redis.RateLimiter.Window.{admitted, admitted_lem}

abbrev builder : RedisKeyBuilder
builder = record { prefix = lit "agent"; environment = lit "prod" }

builds : redis_key_builder (lit "agent") (lit "prod") ≡ ok builder
unfolding redis_key_builder validated_segment is_segment strip is_space
builds = refl

cache_key :
    order_cache builder (lit "acme") (lit "ann") (lit "O-1")
    ≡ ok (lit "agent:prod:cache:order:acme:ann:O-1")
unfolding order_cache validated_segment is_segment strip is_space join
cache_key = refl

rate_key :
    chat_rate_limit builder (lit "acme") (lit "ann") ≡ ok (lit "agent:prod:rate:chat:acme:ann")
unfolding chat_rate_limit validated_segment is_segment strip is_space join
rate_key = refl

claim_key :
    refund_idempotency builder (lit "acme") (lit "ann") (lit "key-1")
    ≡ ok (lit "agent:prod:idempotency:refund:acme:ann:key-1")
unfolding refund_idempotency validated_segment is_segment strip is_space join
claim_key = refl

order_cache-injective_example :
    (builder ≡ builder)
    × (strip (lit "acme") ≡ strip (lit "acme"))
    × (strip (lit "ann") ≡ strip (lit "ann"))
    × (strip (lit "O-1") ≡ strip (lit "O-1"))
order_cache-injective_example =
    order_cache-injective (lit "agent") (lit "prod") (lit "agent") (lit "prod") builder builder
      builds builds (lit "acme") (lit "ann") (lit "O-1") (lit "acme") (lit "ann") (lit "O-1")
      (lit "agent:prod:cache:order:acme:ann:O-1") cache_key cache_key

purposes_differ_example :
    (lit "agent:prod:cache:order:acme:ann:O-1" ≢ lit "agent:prod:rate:chat:acme:ann")
    × (lit "agent:prod:cache:order:acme:ann:O-1"
        ≢ lit "agent:prod:idempotency:refund:acme:ann:key-1")
    × (lit "agent:prod:idempotency:refund:acme:ann:key-1" ≢ lit "agent:prod:rate:chat:acme:ann")
purposes_differ_example =
    purposes_differ (lit "agent") (lit "prod") (lit "agent") (lit "prod") builder builder builds
      builds (lit "acme") (lit "ann") (lit "O-1") (lit "acme") (lit "ann") (lit "acme") (lit "ann")
      (lit "key-1") (lit "agent:prod:cache:order:acme:ann:O-1")
      (lit "agent:prod:rate:chat:acme:ann") (lit "agent:prod:idempotency:refund:acme:ann:key-1")
      cache_key rate_key claim_key

-- A store as the counters and the seconds left, by key.
abbrev pub Counters : Type 0
Counters = (Text → ℕ) × (Text → Option ℕ)

abbrev ttl_of : Option ℕ → ℤ
ttl_of none = negsuc 0
ttl_of (some n) = pos n

abbrev pub commands : RedisCommands
commands = record {
  Store = Counters;
  is_reachable = λ s. true;
  incr = λ k s. (suc (s.0 k), (λ j. if text_eq k j then suc (s.0 k) else s.0 j, s.1));
  ttl = λ k s. ttl_of (s.1 k);
  expire = λ k n s. (s.0, λ j. if text_eq k j then some n else s.1 j);
}

abbrev is_redis : IsRedis commands
is_redis = record {
  count = λ s k. s.0 k;
  left = λ s k. s.1 k;
  incr-count = λ s k. refl;
  count-incr = λ s k j. refl;
  left-incr = λ s k j. refl;
  ttl-left = λ s k n h. ap ttl_of h;
  ttl-missing = λ s k h. ap (λ o. is_negative (ttl_of o)) h;
  count-expire = λ s k j n h. refl;
  left-expire = λ s k j n h p. refl;
}

-- Two requests an hour.
abbrev pub limiter : ChatRateLimiter
limiter = record { key_builder = builder; limit = 2; window_seconds = 3600 }

abbrev pub fresh : World Counters
fresh = record { store = (λ k. 0, λ k. none); status = disabled }

admitted_lem_example : admitted commands is_redis limiter (lit "acme") (lit "ann") 3 fresh ≡ 2
admitted_lem_example =
    admitted_lem commands is_redis limiter (lit "acme") (lit "ann")
      (lit "agent:prod:rate:chat:acme:ann") 3 fresh (omega arith) rate_key (λ s. refl)
