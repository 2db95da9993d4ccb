-- ===== src/Business/Cached/Coherence.antt =====
-- What the cache answers is what the delegate answered for the same tenant, user and order.
use enterprise_support_agent.Base.{
  true, Option, none, some, ◌≡◌, refl, if◌then◌else◌, Result, ok, err, Bool-cases, inl, inr, ◌⊎◌,
}
use enterprise_support_agent.Base.Text.{Text, strip, text_eq, text_eq_iff}
use enterprise_support_agent.Domain.{OrderResponse, Error}
use enterprise_support_agent.Redis.Keys.{RedisKeyBuilder, redis_key_builder, order_cache}
use enterprise_support_agent.Redis.Keys.Distinct.{order_cache-injective}
use enterprise_support_agent.Business.Cached.Commands.{CacheCommands, IsCache, Codec}

-- `P` holds of an answer, if it is one.
abbrev pub Answered : (OrderResponse → Type 0) → Result Error OrderResponse → Type 0
Answered P (err e) = Unit
Answered P (ok order) = P order

abbrev pub Holds : (OrderResponse → Type 0) → Option OrderResponse → Type 0
Holds P none = Unit
Holds P (some order) = P order

module _ (R : CacheCommands) (L : IsCache R) (codec : Codec)
    (P : Text → Text → Text → OrderResponse → Type 0) (key_builder : RedisKeyBuilder) where
  abbrev pub decoded_entry : Option Text → Option OrderResponse
  decoded_entry none = none
  decoded_entry (some payload) = codec.decode payload

  abbrev pub AtKey : (Text → Option Text) → (OrderResponse → Type 0) → Result Error Text → Type 0
  AtKey entry Q (err e) = Unit
  AtKey entry Q (ok key) = Holds Q (decoded_entry (entry key))

  -- Each order in the cache, under the key of a tenant, a user and an order, satisfies `P` of them.
  abbrev pub IsCoherent : (Text → Option Text) → Type 0
  IsCoherent entry =
      (tenant user order : Text)
      → AtKey entry (P (strip tenant) (strip user) (strip order))
          (order_cache key_builder tenant user order)

  -- What may have become of an entry when the one under `key` was set to `new`.
  abbrev pub Changed : Text → Option Text → (Text → Option Text) → (Text → Option Text) → Type 0
  Changed key new before after =
      (j : Text) → (after j ≡ before j) ⊎ (after j ≡ (if text_eq key j then new else before j))

  module _ (p e : Text) (built : redis_key_builder p e ≡ ok key_builder) where
    same_entry :
        (tenant user order tenant' user' order' key j : Text) (new : Option Text)
        → order_cache key_builder tenant user order ≡ ok key
        → order_cache key_builder tenant' user' order' ≡ ok j
        → text_eq key j ≡ true
        → Holds (P (strip tenant) (strip user) (strip order)) (decoded_entry new)
        → Holds (P (strip tenant') (strip user') (strip order')) (decoded_entry new)
    same_entry tenant user order tenant' user' order' key j new k k' same fits =
        let here : order_cache key_builder tenant' user' order' ≡ ok key =
          rw ((text_eq_iff key j).0 same) k' in
        let (_, t, u, o) =
          order_cache-injective p e p e key_builder key_builder built built tenant user order
            tenant' user' order' key k here in
        rw (← t, ← u, ← o) fits

    at_changed :
        (tenant user order tenant' user' order' key j : Text) (new old after : Option Text)
        → order_cache key_builder tenant user order ≡ ok key
        → order_cache key_builder tenant' user' order' ≡ ok j
        → Holds (P (strip tenant) (strip user) (strip order)) (decoded_entry new)
        → Holds (P (strip tenant') (strip user') (strip order')) (decoded_entry old)
        → (after ≡ old) ⊎ (after ≡ (if text_eq key j then new else old))
        → Holds (P (strip tenant') (strip user') (strip order')) (decoded_entry after)
    at_changed tenant user order tenant' user' order' key j new old after k k' fits before
          (inl same) =
        rw same before
    at_changed tenant user order tenant' user' order' key j new old after k k' fits before
          (inr step) =
        elim (Bool-cases (text_eq key j)) [
          | inl same ↦
              rw (step, same)
                (same_entry tenant user order tenant' user' order' key j new k k' same fits)
          | inr other ↦ rw (step, other) before
        ]

    at_key :
        (tenant user order tenant' user' order' key : Text) (new : Option Text)
        (before after : Text → Option Text)
        → order_cache key_builder tenant user order ≡ ok key
        → Holds (P (strip tenant) (strip user) (strip order)) (decoded_entry new)
        → Changed key new before after
        → (r : Result Error Text) → order_cache key_builder tenant' user' order' ≡ r
        → AtKey before (P (strip tenant') (strip user') (strip order')) r
        → AtKey after (P (strip tenant') (strip user') (strip order')) r
    at_key tenant user order tenant' user' order' key new before after k fits change (err x) k' h =
        tt
    at_key tenant user order tenant' user' order' key new before after k fits change (ok j) k' h =
        at_changed tenant user order tenant' user' order' key j new (before j) (after j) k k' fits h
          (change j)

    -- Setting an entry to what fits its key keeps the cache coherent.
    pub Changed-IsCoherent :
        (tenant user order key : Text) (new : Option Text) (before after : Text → Option Text)
        → order_cache key_builder tenant user order ≡ ok key
        → Holds (P (strip tenant) (strip user) (strip order)) (decoded_entry new)
        → Changed key new before after
        → IsCoherent before
        → IsCoherent after
    Changed-IsCoherent tenant user order key new before after k fits change coherent tenant' user'
          order' =
        at_key tenant user order tenant' user' order' key new before after k fits change _ refl
          (coherent tenant' user' order')
