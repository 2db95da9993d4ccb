-- ===== src/Business/Cached/Commands.antt =====
-- The Redis commands and the codec that the cache calls, and what is documented of them.
use enterprise_support_agent.Base.{
  ℕ, Bool, true, false, Option, none, some, ◌≡◌, ◌⊎◌, if◌then◌else◌,
}
use enterprise_support_agent.Base.Text.{Text, text_eq}
use enterprise_support_agent.Domain.{OrderResponse}

-- `none` of `get`, and `false` of `set` and `delete`, is a `RedisError`.
pub record CacheCommands : Type 1 where
  pub Store : Type 0
  pub get : Text → Store → Option (Option Text)
  pub set : Text → Text → ℕ → Store → Bool × Store
  pub delete : Text → Store → Bool × Store

-- `entry s k` is the value under a key. A command that raises may have been carried out.
pub record IsCache (R : CacheCommands) : Type 0 where
  pub entry : R.Store → Text → Option Text
  pub get-entry : (s : R.Store) (k : Text) → (R.get k s ≡ none) ⊎ (R.get k s ≡ some (entry s k))
  pub entry-set :
      (s : R.Store) (k v j : Text) (n : ℕ)
      → (R.set k v n s).0 ≡ true
      → entry (R.set k v n s).1 j ≡ (if text_eq k j then some v else entry s j)
  pub entry-set_failed :
      (s : R.Store) (k v j : Text) (n : ℕ)
      → (R.set k v n s).0 ≡ false
      → (entry (R.set k v n s).1 j ≡ entry s j)
        ⊎ (entry (R.set k v n s).1 j ≡ (if text_eq k j then some v else entry s j))
  pub entry-delete :
      (s : R.Store) (k j : Text)
      → (R.delete k s).0 ≡ true
      → entry (R.delete k s).1 j ≡ (if text_eq k j then none else entry s j)
  pub entry-delete_failed :
      (s : R.Store) (k j : Text)
      → (R.delete k s).0 ≡ false
      → (entry (R.delete k s).1 j ≡ entry s j)
        ⊎ (entry (R.delete k s).1 j ≡ (if text_eq k j then none else entry s j))

-- `model_dump_json(by_alias=True)` and `model_validate_json`, `none` for its exceptions.
pub record Codec : Type 0 where
  pub encode : OrderResponse → Text
  pub decode : Text → Option OrderResponse
  pub decode-encode : (order : OrderResponse) → decode (encode order) ≡ some order
