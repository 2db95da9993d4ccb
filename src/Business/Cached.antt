-- ===== src/Business/Cached.antt =====
-- agent-service/src/agent_service/integrations/business_service/cached.py. Redis's commands and
-- the JSON codec of `OrderResponse` are arguments.
pub mod Commands
pub mod Coherence
pub mod Answers
pub mod Calls
use enterprise_support_agent.Base.{
  ℕ, Bool, true, false, Option, none, some, ◌≡◌, refl, arith, if◌then◌else◌, Result, ok, err, ltb,
}
use enterprise_support_agent.Base.Text.{Text}
use enterprise_support_agent.Domain.{OrderResponse, Error, value_error}
use enterprise_support_agent.Exec.{Exec, pure, lift, ◌>>=◌}
use enterprise_support_agent.Redis.Availability.{World, mark_up, mark_down}
use enterprise_support_agent.Redis.Keys.{RedisKeyBuilder, order_cache}
use enterprise_support_agent.Business.Orders.{OrderService}
use enterprise_support_agent.Business.Cached.Commands.{CacheCommands, Codec}

-- What the delegate changes, and the cache.
pub record Cached (W S : Type 0) : Type 0 where
  pub backend : W
  pub cache : World S

-- The check of `CachedOrderService.__init__`
unfoldable pub init_ttl : ℕ → Result Error ℕ
init_ttl ttl_seconds = if ltb ttl_seconds 1 then err value_error else ok ttl_seconds

module _ {W : Type 0} (delegate : OrderService W) (R : CacheCommands) (codec : Codec)
    (key_builder : RedisKeyBuilder) (ttl_seconds : ℕ) where
  abbrev marked : Bool × R.Store → World R.Store → World R.Store
  marked (done, s) w =
      if done then mark_up (record w { store = s }) else mark_down (record w { store = s })

  -- `_delete`
  unfoldable pub delete_entry : Text → World R.Store → World R.Store
  unfolding mark_up mark_down
  delete_entry cache_key w = marked (R.delete cache_key w.store) w

  -- `_write`
  unfoldable pub write_entry : Text → OrderResponse → World R.Store → World R.Store
  unfolding mark_up mark_down
  write_entry cache_key order w =
      marked (R.set cache_key (codec.encode order) ttl_seconds w.store) w

  abbrev decoded :
      Text → Option OrderResponse → World R.Store → Option OrderResponse × World R.Store
  decoded cache_key (some order) w = (some order, w)
  decoded cache_key none w = (none, delete_entry cache_key w)

  abbrev received :
      Text → Option (Option Text) → World R.Store → Option OrderResponse × World R.Store
  received cache_key none w = (none, mark_down w)
  received cache_key (some none) w = (none, mark_up w)
  received cache_key (some (some payload)) w = decoded cache_key (codec.decode payload) (mark_up w)

  -- `_read`
  unfoldable pub read_entry : Text → World R.Store → Option OrderResponse × World R.Store
  unfolding delete_entry mark_up mark_down
  read_entry cache_key w = received cache_key (R.get cache_key w.store) w

  -- A call of the delegate.
  abbrev delegated : Exec W OrderResponse → Exec (Cached W R.Store) OrderResponse
  delegated m w = let (result, backend) = m w.backend in (result, record w { backend = backend })

  -- An action on the cache, which never raises.
  abbrev on_cache :
      (World R.Store → World R.Store) → OrderResponse → Exec (Cached W R.Store) OrderResponse
  on_cache f order w = (ok order, record w { cache = f w.cache })

  abbrev fetched :
      Text → Text → Text → Text → Option OrderResponse → Exec (Cached W R.Store) OrderResponse
  fetched cache_key tenant_id user_id order_id (some order) = pure order
  fetched cache_key tenant_id user_id order_id none = do
    order ← delegated (delegate.get_order tenant_id user_id order_id)
    on_cache (write_entry cache_key order) order

  -- `CachedOrderService.get_order`
  unfoldable pub get_order : Text → Text → Text → Exec (Cached W R.Store) OrderResponse
  unfolding read_entry write_entry
  get_order tenant_id user_id order_id = do
    cache_key ← lift (order_cache key_builder tenant_id user_id order_id)
    λ w.
        let (found, cache) = read_entry cache_key w.cache in
        fetched cache_key tenant_id user_id order_id found (record w { cache = cache })

  -- `CachedOrderService.request_refund`
  unfoldable pub request_refund : Text → Text → Text → Text → Exec (Cached W R.Store) OrderResponse
  unfolding delete_entry
  request_refund tenant_id user_id order_id idempotency_key = do
    order ← delegated (delegate.request_refund tenant_id user_id order_id idempotency_key)
    cache_key ← lift (order_cache key_builder tenant_id user_id order_id)
    on_cache (delete_entry cache_key) order

  -- The service that the cache makes of its delegate.
  abbrev pub cached_order_service : OrderService (Cached W R.Store)
  cached_order_service = record { get_order = get_order; request_refund = request_refund }
