-- ===== src/Business/Cached/Calls.antt =====
-- When the cache calls its delegate, and what it makes of the answer.
use enterprise_support_agent.Base.{
  ℕ, true, false, none, some, ◌≡◌, arith, ok, err, Result-cases, inl, inr,
}
use enterprise_support_agent.Base.Text.{Text, text_eq_refl}
use enterprise_support_agent.Domain.{OrderResponse, Error}
use enterprise_support_agent.Redis.Availability.{down, mark_up, mark_down}
use enterprise_support_agent.Redis.Keys.{RedisKeyBuilder, order_cache}
use enterprise_support_agent.Business.Orders.{OrderService}
use enterprise_support_agent.Business.Cached.{
  Cached, delete_entry, write_entry, read_entry, get_order, request_refund,
}
use enterprise_support_agent.Business.Cached.Commands.{CacheCommands, IsCache, Codec}

-- For ids without a cache key a lookup raises and does not call the delegate, and a refund raises
-- after the delegate accepted it.
no_key :
    {W : Type 0} (delegate : OrderService W) (R : CacheCommands) (codec : Codec)
    (key_builder : RedisKeyBuilder) (ttl_seconds : ℕ) (tenant_id user_id order_id key : Text)
    (e : Error) (order : OrderResponse) (w : Cached W R.Store)
    → order_cache key_builder tenant_id user_id order_id ≡ err e
    → (delegate.request_refund tenant_id user_id order_id key w.backend).0 ≡ ok order
    → let refund =
        request_refund delegate R codec key_builder ttl_seconds tenant_id user_id order_id key w in
      (get_order delegate R codec key_builder ttl_seconds tenant_id user_id order_id w ≡ (err e, w))
      × (refund.0 ≡ err e)
      × (refund.1.backend ≡ (delegate.request_refund tenant_id user_id order_id key w.backend).1)
unfolding get_order request_refund
no_key delegate R codec key_builder ttl_seconds tenant_id user_id order_id key e order w none_valid
      accepted =
    (rw none_valid, ground arith, ground arith)

module _ {W : Type 0} (delegate : OrderService W) (R : CacheCommands) (codec : Codec)
    (key_builder : RedisKeyBuilder) (ttl_seconds : ℕ) (tenant_id user_id order_id key : Text)
    (valid : order_cache key_builder tenant_id user_id order_id ≡ ok key)
    (w : Cached W R.Store) where
  -- For ids that have a cache key: while Redis is down, a lookup is one call of the delegate, with
  -- its result, be it an order or an exception, and Redis is noted as down.
  pub get_order-down :
      R.get key w.cache.store ≡ none
      → ((payload : Text) (s : R.Store) → (R.set key payload ttl_seconds s).0 ≡ false)
      → let r = get_order delegate R codec key_builder ttl_seconds tenant_id user_id order_id w in
        let call = delegate.get_order tenant_id user_id order_id w.backend in
        (r.0 ≡ call.0) × (r.1.backend ≡ call.1) × (r.1.cache.status ≡ down)
  unfolding get_order read_entry write_entry mark_down
  get_order-down raised failed =
      elim (Result-cases (delegate.get_order tenant_id user_id order_id w.backend).0) [
        | inl (order, answered) ↦ ground (arith, failed (codec.encode order) w.cache.store)
        | inr (e, refused) ↦ ground arith
      ]

  -- For ids that have a cache key: an order in the cache is answered without a call of the delegate.
  pub get_order-hit :
      (payload : Text) (order : OrderResponse)
      → R.get key w.cache.store ≡ some (some payload)
      → codec.decode payload ≡ some order
      → let r = get_order delegate R codec key_builder ttl_seconds tenant_id user_id order_id w in
        (r.0 ≡ ok order) × (r.1.backend ≡ w.backend) × (r.1.cache.store ≡ w.cache.store)
  unfolding get_order read_entry mark_up
  get_order-hit payload order got decodes = ground arith

  -- For ids that have a cache key: a refund is one call of the delegate, with its result, whatever
  -- Redis does.
  pub request_refund-delegate :
      (idempotency_key : Text)
      → let r =
          request_refund delegate R codec key_builder ttl_seconds tenant_id user_id order_id
            idempotency_key w in
        let call = delegate.request_refund tenant_id user_id order_id idempotency_key w.backend in
        (r.0 ≡ call.0) × (r.1.backend ≡ call.1)
  unfolding request_refund delete_entry mark_up mark_down
  request_refund-delegate idempotency_key = ground arith

  -- For ids that have a cache key: after a refund that the delegate accepted, with Redis up, the next
  -- lookup of the order is not answered from the cache, but by the delegate.
  pub get_order-request_refund :
      (idempotency_key : Text) (order : OrderResponse) (L : IsCache R)
      → ((s : R.Store) → R.get key s ≡ some (L.entry s key))
      → ((s : R.Store) → (R.delete key s).0 ≡ true)
      → (delegate.request_refund tenant_id user_id order_id idempotency_key w.backend).0 ≡ ok order
      → let after =
          request_refund delegate R codec key_builder ttl_seconds tenant_id user_id order_id
            idempotency_key w in
        let r =
          get_order delegate R codec key_builder ttl_seconds tenant_id user_id order_id after.1 in
        let call = delegate.get_order tenant_id user_id order_id after.1.backend in
        (r.0 ≡ call.0) × (r.1.backend ≡ call.1)
  unfolding get_order request_refund read_entry write_entry delete_entry mark_up mark_down
  get_order-request_refund idempotency_key order L reads deletes accepted =
      let s = (R.delete key w.cache.store).1 in
      ground (
        arith,
        reads s,
        deletes w.cache.store,
        L.entry-delete w.cache.store key key (deletes w.cache.store),
        text_eq_refl key,
      )
