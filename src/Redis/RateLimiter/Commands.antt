-- ===== src/Redis/RateLimiter/Commands.antt =====
-- The Redis commands that the script calls, and what Redis documents of them.
use enterprise_support_agent.Base.{ℕ, suc, ◌<◌, Bool, true, Option, none, some, ◌≡◌, if◌then◌else◌}
use enterprise_support_agent.Base.Int.{ℤ, pos, is_negative}
use enterprise_support_agent.Base.Text.{Text, text_eq}

pub record RedisCommands : Type 1 where
  pub Store : Type 0
  pub is_reachable : Store → Bool
  pub incr : Text → Store → ℕ × Store
  pub ttl : Text → Store → ℤ
  pub expire : Text → ℕ → Store → Store

-- `count` is the counter under a key, 0 for a missing key, and `left` the seconds until the key
-- expires, `none` for a missing key and for one without a time to live.
pub record IsRedis (R : RedisCommands) : Type 0 where
  pub count : R.Store → Text → ℕ
  pub left : R.Store → Text → Option ℕ
  pub incr-count : (s : R.Store) (k : Text) → (R.incr k s).0 ≡ suc (count s k)
  pub count-incr :
      (s : R.Store) (k j : Text)
      → count (R.incr k s).1 j ≡ (if text_eq k j then suc (count s k) else count s j)
  pub left-incr : (s : R.Store) (k j : Text) → left (R.incr k s).1 j ≡ left s j
  pub ttl-left : (s : R.Store) (k : Text) (n : ℕ) → left s k ≡ some n → R.ttl k s ≡ pos n
  pub ttl-missing : (s : R.Store) (k : Text) → left s k ≡ none → is_negative (R.ttl k s) ≡ true
  pub count-expire :
      (s : R.Store) (k j : Text) (n : ℕ) → 0 < n → count (R.expire k n s) j ≡ count s j
  pub left-expire :
      (s : R.Store) (k j : Text) (n : ℕ)
      → 0 < n
      → 0 < count s k
      → left (R.expire k n s) j ≡ (if text_eq k j then some n else left s j)
