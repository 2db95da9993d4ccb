-- ===== src/Redis/RateLimiter/Window.antt =====
-- What a window of the limiter admits.
use enterprise_support_agent.Base.{
  ℕ, zero, suc, ◌+◌, ◌-◌, ◌<◌, max, min, true, Option, none, some, ◌≡◌, arith, Result, ok, err, ltb,
  if◌then◌else◌, Option-cases, inl, inr, [], ◌∷◌,
}
use enterprise_support_agent.Base.Int.{pos}
use enterprise_support_agent.Base.Text.{Text, text_eq_refl}
use enterprise_support_agent.Domain.{Error, rate_limit_exceeded_error}
use enterprise_support_agent.Redis.Availability.{World, up}
use enterprise_support_agent.Redis.Keys.{chat_rate_limit}
use enterprise_support_agent.Redis.RateLimiter.{
  ChatRateLimiter, RateLimitDecision, sequence, fixed_window_script, check,
}
use enterprise_support_agent.Redis.RateLimiter.Commands.{RedisCommands, IsRedis}

module _ (R : RedisCommands) (L : IsRedis R) where
  open L use {count, left}

  -- The seconds until the window ends, for a key that was counted before.
  abbrev pub window_left : Option ℕ → ℕ → ℕ → ℕ
  window_left none c window = window
  window_left (some n) zero window = window
  window_left (some n) (suc c) window = n

  script_lem :
      (key : Text) (window : ℕ) (s : R.Store)
      → 0 < window
      → let r = fixed_window_script R key window s in
        let after = window_left (left s key) (count s key) window in
        (r.0 ≡ sequence (some (pos (suc (count s key))) ∷ some (pos after) ∷ []))
        × (count r.1 key ≡ suc (count s key))
        × (left r.1 key ≡ some after)
  unfolding fixed_window_script
  script_lem key window s w = elim (Option-cases (left s key)) [
    | inl missing ↦ ground (
      arith,
      L.incr-count s key,
      L.count-incr s key key,
      L.left-incr s key key,
      L.ttl-missing (R.incr key s).1 key,
      L.count-expire (R.incr key s).1 key key window w,
      L.left-expire (R.incr key s).1 key key window w,
      text_eq_refl key,
    )
    | inr (n, known) ↦ ground (
      arith,
      L.incr-count s key,
      L.count-incr s key key,
      L.left-incr s key key,
      L.ttl-left (R.incr key s).1 key n,
      L.count-expire (R.incr key s).1 key key window w,
      L.left-expire (R.incr key s).1 key key window w,
      text_eq_refl key,
    )
  ]

  abbrev pub decision : ℕ → ℕ → ℕ → Result Error RateLimitDecision
  decision limit c seconds =
      if ltb c limit
      then ok
          (record { limit = limit; remaining = limit - suc c; reset_after_seconds = max seconds 1 })
      else err (rate_limit_exceeded_error (max seconds 1))

  -- With Redis reachable and the ids valid, the request is admitted exactly if fewer than `limit`
  -- were counted in the window; the answer says how many are left and for how long; the counter
  -- grows by one, the key always has a time to live afterwards, and Redis is noted as up.
  pub check_lem :
      (limiter : ChatRateLimiter)
      → (tenant_id user_id key : Text) → (w : World R.Store) → 0 < limiter.window_seconds
      → chat_rate_limit limiter.key_builder tenant_id user_id ≡ ok key
      → R.is_reachable w.store ≡ true
      → let r = check R limiter tenant_id user_id w in
        let c = count w.store key in
        let seconds = window_left (left w.store key) c limiter.window_seconds in
        (r.0 ≡ decision limiter.limit c seconds)
        × (count r.1.store key ≡ suc c)
        × (left r.1.store key ≡ some seconds)
        × (r.1.status ≡ up)
  unfolding check
  check_lem limiter tenant_id user_id key w positive valid reachable =
      ground (arith, script_lem key limiter.window_seconds w.store positive)

  -- How many of `n` requests in a row are admitted.
  abbrev is_ok : Result Error RateLimitDecision → ℕ
  is_ok (ok _) = 1
  is_ok (err _) = 0

  pub admitted : ChatRateLimiter → Text → Text → ℕ → World R.Store → ℕ
  admitted limiter tenant_id user_id zero w = 0
  admitted limiter tenant_id user_id (suc n) w =
      let (result, w') = check R limiter tenant_id user_id w in
      is_ok result + admitted limiter tenant_id user_id n w'

  is_ok-decision :
      (limit c seconds : ℕ) → is_ok (decision limit c seconds) ≡ (if ltb c limit then 1 else 0)
  is_ok-decision limit c seconds = ground arith

  -- While Redis stays reachable and the window lasts, of `n` requests of one user in a row exactly
  -- as many are admitted as the limit leaves over what was counted before: never one more, and
  -- none is refused too early.
  pub admitted_lem :
      (limiter : ChatRateLimiter)
      → (tenant_id user_id key : Text) → (n : ℕ) → (w : World R.Store) → 0 < limiter.window_seconds
      → chat_rate_limit limiter.key_builder tenant_id user_id ≡ ok key
      → ((s : R.Store) → R.is_reachable s ≡ true)
      → admitted limiter tenant_id user_id n w ≡ min n (limiter.limit - count w.store key)
  unfolding admitted
  admitted_lem limiter tenant_id user_id key zero w positive valid reachable = ground arith
  admitted_lem limiter tenant_id user_id key (suc n) w positive valid reachable =
      let (result, counted, _, _) =
        check_lem limiter tenant_id user_id key w positive valid (reachable w.store) in
      ground (
        arith,
        result,
        counted,
        is_ok-decision limiter.limit (count w.store key)
            (window_left (left w.store key) (count w.store key) limiter.window_seconds),
        admitted_lem limiter tenant_id user_id key n (check R limiter tenant_id user_id w).1
            positive valid reachable,
      )
