-- ===== src/Business/Cached/Answers.antt =====
-- The operations of the cache keep it coherent, and answer only what fits the request.
use mathlib.Core.Path.{subst}
use enterprise_support_agent.Base.{
  ℕ, Option, none, some, ◌≡◌, refl, arith, Result, ok, err, Bool-cases, inl, inr, ◌⊎◌,
}
use enterprise_support_agent.Base.Text.{Text, strip}
use enterprise_support_agent.Domain.{OrderResponse, Error}
use enterprise_support_agent.Exec.{continue}
use enterprise_support_agent.Redis.Availability.{World, mark_up, mark_down}
use enterprise_support_agent.Redis.Keys.{RedisKeyBuilder, redis_key_builder, order_cache}
use enterprise_support_agent.Business.Orders.{OrderService}
use enterprise_support_agent.Business.Cached.{
  Cached, delete_entry, write_entry, read_entry, get_order, fetched, received, decoded, on_cache,
}
use enterprise_support_agent.Business.Cached.Commands.{CacheCommands, IsCache, Codec}
use enterprise_support_agent.Business.Cached.Coherence.{
  Answered, Holds, IsCoherent, Changed, decoded_entry, Changed-IsCoherent, AtKey,
}

module _ {W : Type 0} (delegate : OrderService W) (R : CacheCommands) (L : IsCache R)
    (codec : Codec) (P : Text → Text → Text → OrderResponse → Type 0)
    (key_builder : RedisKeyBuilder) (p e : Text) (built : redis_key_builder p e ≡ ok key_builder)
    (ttl_seconds : ℕ) where
  abbrev pub Coherent : World R.Store → Type 0
  Coherent w = IsCoherent R L codec P key_builder (L.entry w.store)

  delete-Changed :
      (key : Text) (w : World R.Store)
      → Changed R L codec P key_builder key none
          (L.entry w.store)
          (L.entry (delete_entry delegate R codec key_builder ttl_seconds key w).store)
  unfolding delete_entry
  delete-Changed key w j = elim (Bool-cases (R.delete key w.store).0) [
    | inl done ↦ ground (arith, L.entry-delete w.store key j done)
    | inr failed ↦ ground (arith, L.entry-delete_failed w.store key j failed)
  ]

  write-Changed :
      (key : Text) (order : OrderResponse) (w : World R.Store)
      → Changed R L codec P key_builder key
          (some (codec.encode order))
          (L.entry w.store)
          (L.entry (write_entry delegate R codec key_builder ttl_seconds key order w).store)
  unfolding write_entry
  write-Changed key order w j =
      let value = codec.encode order in
      elim (Bool-cases (R.set key value ttl_seconds w.store).0) [
        | inl done ↦ ground (arith, L.entry-set w.store key value j ttl_seconds done)
        | inr failed ↦ ground (arith, L.entry-set_failed w.store key value j ttl_seconds failed)
      ]

  delete-Coherent :
      (tenant user order key : Text) (w : World R.Store)
      → order_cache key_builder tenant user order ≡ ok key
      → Coherent w
      → Coherent (delete_entry delegate R codec key_builder ttl_seconds key w)
  delete-Coherent tenant user order key w k coherent =
      Changed-IsCoherent R L codec P key_builder p e built tenant user order key none _ _ k tt
        (delete-Changed key w) coherent

  write-Coherent :
      (tenant user order_id key : Text) (order : OrderResponse) (w : World R.Store)
      → order_cache key_builder tenant user order_id ≡ ok key
      → P (strip tenant) (strip user) (strip order_id) order
      → Coherent w
      → Coherent (write_entry delegate R codec key_builder ttl_seconds key order w)
  write-Coherent tenant user order_id key order w k fits coherent =
      Changed-IsCoherent R L codec P key_builder p e built tenant user order_id key
        (some (codec.encode order)) _ _ k (rw (codec.decode-encode order) fits)
        (write-Changed key order w) coherent

  decoded-Coherent :
      (tenant user order_id key : Text) (found : Option OrderResponse) (w : World R.Store)
      → order_cache key_builder tenant user order_id ≡ ok key
      → Holds (P (strip tenant) (strip user) (strip order_id)) found
      → Coherent w
      → let r = decoded delegate R codec key_builder ttl_seconds key found w in
        Holds (P (strip tenant) (strip user) (strip order_id)) r.0 × Coherent r.1
  decoded-Coherent tenant user order_id key (some order) w k fits coherent = (fits, coherent)
  decoded-Coherent tenant user order_id key none w k fits coherent =
      (tt, delete-Coherent tenant user order_id key w k coherent)

  payload_fits :
      (Q : OrderResponse → Type 0) (entry : Option Text) (payload : Text)
      → (some (some payload) ≡ none) ⊎ (some (some payload) ≡ some entry)
      → Holds Q (decoded_entry R L codec P key_builder entry)
      → Holds Q (codec.decode payload)
  payload_fits Q entry payload (inl raised) h = cc
  payload_fits Q none payload (inr same) h = cc
  payload_fits Q (some value) payload (inr same) h = let eq : payload ≡ value = cc in rw eq h

  received-Coherent :
      (tenant user order_id key : Text) (raw : Option (Option Text)) (w : World R.Store)
      → order_cache key_builder tenant user order_id ≡ ok key
      → (raw ≡ none) ⊎ (raw ≡ some (L.entry w.store key))
      → Holds
          (P (strip tenant) (strip user) (strip order_id))
          (decoded_entry R L codec P key_builder (L.entry w.store key))
      → Coherent w
      → let r = received delegate R codec key_builder ttl_seconds key raw w in
        Holds (P (strip tenant) (strip user) (strip order_id)) r.0 × Coherent r.1
  unfolding mark_up mark_down
  received-Coherent tenant user order_id key none w k got h coherent = (tt, coherent)
  received-Coherent tenant user order_id key (some none) w k got h coherent = (tt, coherent)
  received-Coherent tenant user order_id key (some (some payload)) w k got h coherent =
      decoded-Coherent tenant user order_id key (codec.decode payload) (mark_up w) k
        (payload_fits (P (strip tenant) (strip user) (strip order_id)) (L.entry w.store key) payload
          got h)
        coherent

  read-Coherent :
      (tenant user order_id key : Text) (w : World R.Store)
      → order_cache key_builder tenant user order_id ≡ ok key
      → Coherent w
      → let r = read_entry delegate R codec key_builder ttl_seconds key w in
        Holds (P (strip tenant) (strip user) (strip order_id)) r.0 × Coherent r.1
  unfolding read_entry
  read-Coherent tenant user order_id key w k coherent =
      let at : AtKey R L codec P key_builder (L.entry w.store)
          (P (strip tenant) (strip user) (strip order_id)) (ok key) =
        subst
          (AtKey R L codec P key_builder (L.entry w.store)
            (P (strip tenant) (strip user) (strip order_id)))
          k (coherent tenant user order_id) in
      received-Coherent tenant user order_id key (R.get key w.store) w k (L.get-entry w.store key)
        at coherent

  module _
      (answers : (tenant user order_id : Text) (w : W)
        → Answered
            (P (strip tenant) (strip user) (strip order_id))
            (delegate.get_order tenant user order_id w).0) where
    abbrev Fits : Text → Text → Text → Result Error OrderResponse × Cached W R.Store → Type 0
    Fits tenant user order_id (result, w) =
        Answered (P (strip tenant) (strip user) (strip order_id)) result × Coherent w.cache

    stored-Fits :
        (tenant user order_id key : Text) (result : Result Error OrderResponse)
        (w : Cached W R.Store)
        → order_cache key_builder tenant user order_id ≡ ok key
        → Answered (P (strip tenant) (strip user) (strip order_id)) result
        → Coherent w.cache
        → Fits tenant user order_id (
            continue result
              (λ order.
                on_cache delegate R codec key_builder ttl_seconds
                  (write_entry delegate R codec key_builder ttl_seconds key order)
                  order)
              w)
    stored-Fits tenant user order_id key (err x) w k fits coherent = (tt, coherent)
    stored-Fits tenant user order_id key (ok order) w k fits coherent =
        (fits, write-Coherent tenant user order_id key order w.cache k fits coherent)

    fetched-Fits :
        (tenant user order_id key : Text) (found : Option OrderResponse) (w : Cached W R.Store)
        → order_cache key_builder tenant user order_id ≡ ok key
        → Holds (P (strip tenant) (strip user) (strip order_id)) found
        → Coherent w.cache
        → Fits tenant user order_id
            (fetched delegate R codec key_builder ttl_seconds key tenant user order_id found w)
    fetched-Fits tenant user order_id key (some order) w k fits coherent = (fits, coherent)
    fetched-Fits tenant user order_id key none w k fits coherent =
        let (result, backend) = delegate.get_order tenant user order_id w.backend in
        stored-Fits tenant user order_id key result (record w { backend = backend }) k
          (answers tenant user order_id w.backend) coherent

    at_cache_key :
        (tenant user order_id : Text) (w : Cached W R.Store) (key : Result Error Text)
        → order_cache key_builder tenant user order_id ≡ key
        → Coherent w.cache
        → Fits tenant user order_id (
            continue key
              (λ cache_key w.
                let r = read_entry delegate R codec key_builder ttl_seconds cache_key w.cache in
                fetched delegate R codec key_builder ttl_seconds cache_key tenant user order_id r.0
                  (record w { cache = r.1 }))
              w)
    at_cache_key tenant user order_id w (err x) k coherent = (tt, coherent)
    at_cache_key tenant user order_id w (ok key) k coherent =
        let (fits, kept) = read-Coherent tenant user order_id key w.cache k coherent in
        let r = read_entry delegate R codec key_builder ttl_seconds key w.cache in
        fetched-Fits tenant user order_id key r.0 (record w { cache = r.1 }) k fits kept

    -- Take a predicate of a tenant, a user and an order that are without spaces at their ends. If what
    -- the delegate answers for any ids satisfies it at the stripped ids, then so does what the cache
    -- answers, from Redis or not, with whatever failures of Redis; and the cache stays one that
    -- holds such orders only. Ids that differ only in such spaces share their entry.
    pub get_order-Coherent :
        (tenant user order_id : Text) (w : Cached W R.Store)
        → Coherent w.cache
        → let r = get_order delegate R codec key_builder ttl_seconds tenant user order_id w in
          Answered (P (strip tenant) (strip user) (strip order_id)) r.0 × Coherent r.1.cache
    unfolding get_order
    get_order-Coherent tenant user order_id w coherent =
        at_cache_key tenant user order_id w (order_cache key_builder tenant user order_id) refl
          coherent
