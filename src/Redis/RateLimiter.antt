-- ===== src/Redis/RateLimiter.antt =====
-- agent-service/src/agent_service/services/rate_limiter.py. The commands of the Lua script are
-- Redis's, so they are an argument.
pub mod Commands
pub mod Window
use enterprise_support_agent.Base.{
  ℕ, suc, ◌+◌, ◌-◌, Bool, true, false, Option, none, some, List, [], ◌∷◌, ◌≡◌, refl, arith,
  if◌then◌else◌, Result, ok, err, ◌||◌, ltb, ◌==◌, max,
}
use enterprise_support_agent.Base.Int.{ℤ, pos, negsuc, is_negative}
use enterprise_support_agent.Base.Text.{Text}
use enterprise_support_agent.Domain.{
  Error, value_error, type_error, rate_limit_exceeded_error, rate_limit_unavailable_error,
}
use enterprise_support_agent.Exec.{Exec, pure, raise, lift, ◌>>=◌}
use enterprise_support_agent.Redis.Availability.{World, mark_up, mark_down}
use enterprise_support_agent.Redis.Keys.{RedisKeyBuilder, chat_rate_limit}
use enterprise_support_agent.Redis.RateLimiter.Commands.{RedisCommands}

pub record RateLimitDecision : Type 0 where
  pub limit : ℕ
  pub remaining : ℕ
  pub reset_after_seconds : ℕ

-- What `redis.eval` returns: a sequence of values, `none` for one that is no `int`, or no sequence.
pub data RawResult : Type 0 where
  sequence : List (Option ℤ) → RawResult
  other : RawResult

unfoldable pub parse_result : RawResult → Result Error (ℤ × ℤ)
parse_result (sequence (some current ∷ some ttl ∷ [])) = ok (current, ttl)
parse_result _ = err type_error

pub record ChatRateLimiter : Type 0 where
  pub key_builder : RedisKeyBuilder
  pub limit : ℕ
  pub window_seconds : ℕ

-- `ChatRateLimiter.__init__`
unfoldable pub chat_rate_limiter : RedisKeyBuilder → ℕ → ℕ → Result Error ChatRateLimiter
chat_rate_limiter key_builder limit window_seconds =
    if ltb limit 1
    then err value_error
    else if ltb window_seconds 1
    then err value_error
    else ok (record { key_builder = key_builder; limit = limit; window_seconds = window_seconds })

-- `current > limit`
abbrev exceeds : ℤ → ℕ → Bool
exceeds (pos n) limit = ltb limit n
exceeds (negsuc n) limit = false

-- `max(ttl, 1)`
abbrev at_least_one : ℤ → ℕ
at_least_one (pos n) = max n 1
at_least_one (negsuc n) = 1

-- `max(limit - current, 0)`
abbrev remaining_of : ℕ → ℤ → ℕ
remaining_of limit (pos n) = limit - n
remaining_of limit (negsuc n) = limit + suc n

-- What follows `_parse_result` in `check`.
unfoldable pub decide : ℕ → ℤ × ℤ → Result Error RateLimitDecision
decide limit (current, ttl) =
    if exceeds current limit
    then err (rate_limit_exceeded_error (at_least_one ttl))
    else ok (record {
      limit = limit;
      remaining = remaining_of limit current;
      reset_after_seconds = at_least_one ttl;
    })

module _ (R : RedisCommands) where
  -- `_FIXED_WINDOW_SCRIPT`
  unfoldable pub fixed_window_script : Text → ℕ → R.Store → RawResult × R.Store
  fixed_window_script key window s =
      let (current, s') = R.incr key s in
      let ttl = R.ttl key s' in
      if current == 1 || is_negative ttl
      then (sequence (some (pos current) ∷ some (pos window) ∷ []), R.expire key window s')
      else (sequence (some (pos current) ∷ some ttl ∷ []), s')

  -- `redis.eval` on the script; `none` is a `RedisError`.
  unfoldable pub eval_script : Text → ℕ → R.Store → Option RawResult × R.Store
  unfolding fixed_window_script
  eval_script key window s =
      let (result, s') = fixed_window_script key window s in
      if R.is_reachable s then (some result, s') else (none, s)

  abbrev judged : ℕ → Option RawResult → Exec (World R.Store) RateLimitDecision
  judged limit none w = (err rate_limit_unavailable_error, mark_down w)
  judged limit (some raw) w = (lift (parse_result raw) >>= λ r. lift (decide limit r)) (mark_up w)

  -- `ChatRateLimiter.check`
  unfoldable pub check : ChatRateLimiter → Text → Text → Exec (World R.Store) RateLimitDecision
  unfolding eval_script parse_result decide mark_up mark_down
  check limiter tenant_id user_id = do
    key ← lift (chat_rate_limit limiter.key_builder tenant_id user_id)
    λ w.
        let (result, s) = eval_script key limiter.window_seconds w.store in
        judged limiter.limit result (record w { store = s })
