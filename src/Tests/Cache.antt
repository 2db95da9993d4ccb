-- ===== src/Tests/Cache.antt =====
-- The cache over a delegate that counts its calls.
use enterprise_support_agent.Base.{
  ℕ, suc, true, false, Option, none, some, ◌≡◌, refl, ok, err, if◌then◌else◌, inr,
}
use enterprise_support_agent.Base.Text.{Text, lit, text_eq, strip, is_space}
use enterprise_support_agent.Domain.{OrderResponse}
use enterprise_support_agent.Redis.Availability.{up, down, disabled}
use enterprise_support_agent.Redis.Keys.{
  is_segment, validated_segment, RedisKeyBuilder, redis_key_builder, join, order_cache,
}
use enterprise_support_agent.Business.Orders.{OrderService}
use enterprise_support_agent.Business.Cached.{Cached, get_order, request_refund}
use enterprise_support_agent.Business.Cached.Commands.{CacheCommands, IsCache}
use enterprise_support_agent.Business.Cached.Coherence.{Answered, AtKey}
use enterprise_support_agent.Business.Cached.Answers.{Coherent, get_order-Coherent}
use enterprise_support_agent.Business.Cached.Calls.{get_order-down, get_order-request_refund}
use enterprise_support_agent.Tests.Codec.{codec}
use enterprise_support_agent.Tests.Sample.{paid_order, refunding_order, order_number}

-- It knows one user's orders.
abbrev delegate : OrderService ℕ
delegate = record {
  get_order = λ tenant user order n. (ok (record paid_order { order_id = strip order }), suc n);
  request_refund = λ tenant user order key n. (ok refunding_order, suc n);
}

abbrev commands : CacheCommands
commands = record {
  Store = Text → Option Text;
  get = λ k s. some (s k);
  set = λ k v n s. (true, λ j. if text_eq k j then some v else s j);
  delete = λ k s. (true, λ j. if text_eq k j then none else s j);
}

abbrev is_cache : IsCache commands
is_cache = record {
  entry = λ s k. s k;
  get-entry = λ s k. inr refl;
  entry-set = λ s k v j n h. refl;
  entry-set_failed = λ s k v j n h. inr refl;
  entry-delete = λ s k j h. refl;
  entry-delete_failed = λ s k j h. inr refl;
}

-- Redis that does not answer.
abbrev broken : CacheCommands
broken = record {
  Store = Text → Option Text;
  get = λ k s. none;
  set = λ k v n s. (false, s);
  delete = λ k s. (false, s);
}

abbrev builder : RedisKeyBuilder
builder = record { prefix = lit "agent"; environment = lit "prod" }

builder_lem : redis_key_builder (lit "agent") (lit "prod") ≡ ok builder
unfolding redis_key_builder validated_segment is_segment strip is_space
builder_lem = refl

abbrev key : Text
key = lit "agent:prod:cache:order:acme:ann:O-1"

key_lem : order_cache builder (lit "acme") (lit "ann") order_number ≡ ok key
unfolding order_cache validated_segment is_segment strip is_space join
key_lem = refl

abbrev empty_cache : Cached ℕ (Text → Option Text)
empty_cache = record { backend = 0; cache = record { store = λ k. none; status = disabled } }

abbrev full_cache : Cached ℕ (Text → Option Text)
full_cache = record {
  backend = 0;
  cache = record { store = λ k. some (codec.encode paid_order); status = up };
}

-- An order of the number that was asked for.
abbrev Asked : Text → Text → Text → OrderResponse → Type 0
Asked tenant user order_id order = order.order_id ≡ order_id

get_order-down_example :
    ((get_order delegate broken codec builder 60 (lit "acme") (lit "ann") order_number full_cache).0
      ≡ (delegate.get_order (lit "acme") (lit "ann") order_number 0).0)
    × ((get_order delegate broken codec builder 60
          (lit "acme")
          (lit "ann")
          order_number
          full_cache).1.backend
        ≡ 1)
    × ((get_order delegate broken codec builder 60
          (lit "acme")
          (lit "ann")
          order_number
          full_cache).1.cache.status
        ≡ down)
get_order-down_example =
    get_order-down delegate broken codec builder 60 (lit "acme") (lit "ann") order_number key
      key_lem full_cache refl (λ payload s. refl)

abbrev refunded_cache : Cached ℕ (Text → Option Text)
refunded_cache =
    (request_refund delegate commands codec builder 60 (lit "acme") (lit "ann") order_number
      (lit "key-1") full_cache).1

get_order-request_refund_example :
    ((get_order delegate commands codec builder 60
        (lit "acme")
        (lit "ann")
        order_number
        refunded_cache).0
      ≡ (delegate.get_order (lit "acme") (lit "ann") order_number refunded_cache.backend).0)
    × ((get_order delegate commands codec builder 60
          (lit "acme")
          (lit "ann")
          order_number
          refunded_cache).1.backend
        ≡ suc refunded_cache.backend)
get_order-request_refund_example =
    get_order-request_refund delegate commands codec builder 60 (lit "acme") (lit "ann")
      order_number key key_lem full_cache (lit "key-1") refunding_order is_cache (λ s. refl)
      (λ s. refl) refl

empty-Coherent :
    Coherent delegate commands is_cache codec Asked builder
      (lit "agent")
      (lit "prod")
      builder_lem
      60
      empty_cache.cache
empty-Coherent tenant user order =
    elim (order_cache builder tenant user order)
      as (λ r.
        AtKey commands is_cache codec Asked builder (λ k. none)
          (Asked (strip tenant) (strip user) (strip order)) r) [ ok k ↦ tt | err e ↦ tt ]

get_order-Coherent_example :
    Answered
      (Asked (strip (lit "acme")) (strip (lit "ann")) (strip order_number))
      (get_order delegate commands codec builder 60
        (lit "acme")
        (lit "ann")
        order_number
        empty_cache).0
    × Coherent delegate commands is_cache codec Asked builder
        (lit "agent")
        (lit "prod")
        builder_lem
        60
        (get_order delegate commands codec builder 60
          (lit "acme")
          (lit "ann")
          order_number
          empty_cache).1.cache
get_order-Coherent_example =
    get_order-Coherent delegate commands is_cache codec Asked builder (lit "agent") (lit "prod")
      builder_lem 60 (λ tenant user order n. refl) (lit "acme") (lit "ann") order_number empty_cache
      empty-Coherent
