-- ===== src/Redis/Keys.antt =====
-- agent-service/src/agent_service/core/redis_keys.py
pub mod Distinct
use enterprise_support_agent.Base.{
  ℕ, Bool, true, false, List, [], ◌∷◌, ◌++◌, ◌≡◌, refl, arith, if◌then◌else◌, Result, ok, err,
  ◌>>=◌, ◌&&◌, ◌||◌, leb, ltb, ◌==◌, length, all,
}
use enterprise_support_agent.Base.Text.{Text, lit, strip}
use enterprise_support_agent.Domain.{Error, value_error}

-- `[A-Za-z0-9]` and `[A-Za-z0-9_-]`
abbrev pub is_alphanumeric : ℕ → Bool
is_alphanumeric c =
    (leb b'A' c && leb c b'Z') || (leb b'a' c && leb c b'z') || (leb b'0' c && leb c b'9')

abbrev pub is_segment_char : ℕ → Bool
is_segment_char c = is_alphanumeric c || c == b'_' || c == b'-'

-- `_KEY_SEGMENT_PATTERN.fullmatch`
unfoldable pub is_segment : Text → Bool
is_segment [] = false
is_segment (c ∷ s) = is_alphanumeric c && all is_segment_char s && leb (length s) 127

-- `_validated_segment`
unfoldable pub validated_segment : Text → Result Error Text
validated_segment value = if is_segment (strip value) then ok (strip value) else err value_error

pub record RedisKeyBuilder : Type 0 where
  pub prefix : Text
  pub environment : Text

-- The construction, with `__post_init__`.
unfoldable pub redis_key_builder : Text → Text → Result Error RedisKeyBuilder
redis_key_builder prefix environment = do
  prefix ← validated_segment prefix
  environment ← validated_segment environment
  ok (record { prefix = prefix; environment = environment })

-- `":".join(segments)`
unfoldable pub join : List Text → Text
join [] = []
join (s ∷ []) = s
join (s ∷ t ∷ rest) = s ++ 58 ∷ join (t ∷ rest)

unfoldable pub order_cache : RedisKeyBuilder → Text → Text → Text → Result Error Text
order_cache b tenant_id user_id order_id = do
  tenant ← validated_segment tenant_id
  user ← validated_segment user_id
  order ← validated_segment order_id
  ok (join (b.prefix ∷ b.environment ∷ lit "cache" ∷ lit "order" ∷ tenant ∷ user ∷ order ∷ []))

unfoldable pub chat_rate_limit : RedisKeyBuilder → Text → Text → Result Error Text
chat_rate_limit b tenant_id user_id = do
  tenant ← validated_segment tenant_id
  user ← validated_segment user_id
  ok (join (b.prefix ∷ b.environment ∷ lit "rate" ∷ lit "chat" ∷ tenant ∷ user ∷ []))

unfoldable pub refund_idempotency : RedisKeyBuilder → Text → Text → Text → Result Error Text
refund_idempotency b tenant_id user_id idempotency_key = do
  tenant ← validated_segment tenant_id
  user ← validated_segment user_id
  key ← validated_segment idempotency_key
  ok (join (b.prefix ∷ b.environment ∷ lit "idempotency" ∷ lit "refund" ∷ tenant ∷ user ∷ key ∷ []))
