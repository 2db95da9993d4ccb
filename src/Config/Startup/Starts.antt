-- ===== src/Config/Startup/Starts.antt =====
-- Settings that are accepted start the service.
use enterprise_support_agent.Base.{
  ℕ, suc, true, false, Option, [], ◌∷◌, ◌≡◌, ◌≢◌, refl, arith, Result, ok, err, Result-cases, inl,
  inr, is_none, not, all, ◌||◌, ◌==◌,
}
use enterprise_support_agent.Base.Text.{Text, strip}
use enterprise_support_agent.Domain.{Error}
use enterprise_support_agent.Redis.Keys.{
  is_segment, is_segment_char, validated_segment, RedisKeyBuilder, redis_key_builder,
}
use enterprise_support_agent.Redis.Availability.{RedisAvailabilityStatus}
use enterprise_support_agent.Redis.RateLimiter.{ChatRateLimiter, chat_rate_limiter}
use enterprise_support_agent.Business.Cached.{init_ttl}
use enterprise_support_agent.Rag.Retrieval.{init_retriever}
use enterprise_support_agent.Rag.Reranking.{init_reranker}
use enterprise_support_agent.Api.Requests.Segments.{strip-segment}
use enterprise_support_agent.Config.{
  Settings, is_lower_alphanumeric, is_key_prefix, has_valid_fields, settings_of,
  validate_rag_ranking, validate_checkpoint_configuration, validate_redis_configuration,
}
use enterprise_support_agent.Config.Startup.{
  Ping, pong, open_redis, open_checkpointer, create_chat_model, Dependencies, misconfigured,
  create_embedding_resources, create_cross_encoder_reranker, RagStart, start_rag, redis_services,
  Started, lifespan,
}

key_prefix-chars :
    (s : Text)
    → all (λ d. is_lower_alphanumeric d || d == b'_' || d == b'-') s ≡ true
    → all is_segment_char s ≡ true
key_prefix-chars [] h = refl
key_prefix-chars (d ∷ s) h = ground (arith, key_prefix-chars s)

is_key_prefix-is_segment : (s : Text) → is_key_prefix s ≡ true → is_segment s ≡ true
unfolding is_key_prefix is_segment
is_key_prefix-is_segment [] h = cc
is_key_prefix-is_segment (c ∷ s) h = ground (arith, key_prefix-chars s)

redis_key_builder-ok :
    (prefix environment : Text)
    → is_key_prefix prefix ≡ true
    → is_segment (strip environment) ≡ true
    → (b : RedisKeyBuilder) × (redis_key_builder prefix environment ≡ ok b)
unfolding redis_key_builder validated_segment
redis_key_builder-ok prefix environment valid named =
    let prefix_valid = is_key_prefix-is_segment prefix valid in
    let kept = strip-segment prefix prefix_valid in
    elim (Result-cases (redis_key_builder prefix environment)) [
      | inl made ↦ made
      | inr (e, failed) ↦ absurd (ground (arith, kept))
    ]

key_prefix : (s : Settings) → settings_of s ≡ ok s → is_key_prefix s.redis_key_prefix ≡ true
unfolding settings_of has_valid_fields
key_prefix s valid = ground arith

create_chat_model-ok :
    (s : Settings)
    → is_none s.llm_model ≡ false
    → is_none s.llm_api_key ≡ false
    → (model : Text × Text) × (create_chat_model s ≡ ok model)
unfolding create_chat_model
create_chat_model-ok s named keyed = elim (Result-cases (create_chat_model s)) [
  | inl made ↦ made
  | inr (e, failed) ↦ absurd (ground arith)
]

start_rag-ok :
    (s : Settings) (d : Dependencies) (size : ℕ)
    → settings_of s ≡ ok s
    → (s.rag_enabled ≡ true → d.probe_vector ≡ ok (suc size))
    → (s.rag_enabled ≡ true → s.rag_reranker_enabled ≡ true → d.cross_encoder ≡ ok tt)
    → d.store ≢ misconfigured
    → (rag : RagStart) × (start_rag s d ≡ ok rag)
unfolding start_rag settings_of has_valid_fields validate_rag_ranking init_reranker init_retriever
    create_embedding_resources create_cross_encoder_reranker
start_rag-ok s d size valid probed loaded configured = elim (Result-cases (start_rag s d)) [
  | inl made ↦ made
  | inr (e, failed) ↦ absurd (ground arith)
]

open_checkpointer-ok :
    (s : Settings) (database : Result Error (Unit {0}))
    → settings_of s ≡ ok s
    → (s.checkpoint_enabled ≡ true → database ≡ ok tt)
    → open_checkpointer s database ≡ ok s.checkpoint_enabled
unfolding open_checkpointer settings_of validate_checkpoint_configuration
open_checkpointer-ok s database valid reached = ground arith

open_redis-ok :
    (s : Settings) (ping : Ping)
    → settings_of s ≡ ok s
    → (s.redis_enabled ≡ true → ping ≡ pong)
    → (status : RedisAvailabilityStatus) × (open_redis s ping ≡ ok (s.redis_enabled, status))
unfolding open_redis settings_of validate_redis_configuration
open_redis-ok s ping valid reached = elim (Result-cases (open_redis s ping)) [
  | inl ((client, status), made) ↦ (status, ground arith)
  | inr (e, failed) ↦ absurd (ground arith)
]

redis_services-ok :
    (s : Settings) (b : RedisKeyBuilder)
    → settings_of s ≡ ok s
    → (ttl : Option ℕ) × (limiter : Option ChatRateLimiter) × (redis_services s b s.redis_enabled
        ≡ ok (ttl, limiter))
      × (is_none ttl ≡ not s.redis_enabled)
      × (is_none limiter ≡ not s.redis_enabled)
unfolding settings_of has_valid_fields init_ttl chat_rate_limiter
redis_services-ok s b valid = elim (Result-cases (redis_services s b s.redis_enabled)) [
  | inl ((ttl, limiter), made) ↦ (ttl, limiter, made, ground arith, ground arith)
  | inr (e, failed) ↦ absurd (ground arith)
]

-- Settings that are accepted, with a model and its key and with an environment that is a segment of
-- a Redis key, start the service, if what they enable is there: the embedding model with a vector
-- that is not empty, the reranker's model, a database and a Redis that answer; and if the vector
-- store is not misconfigured. The service then limits rates and caches orders exactly if Redis is
-- enabled, and has threads exactly if checkpoints are.
pub lifespan-starts :
    (s : Settings) (d : Dependencies) (size : ℕ)
    → settings_of s ≡ ok s
    → is_none s.llm_model ≡ false
    → is_none s.llm_api_key ≡ false
    → is_segment (strip s.environment) ≡ true
    → (s.rag_enabled ≡ true → d.probe_vector ≡ ok (suc size))
    → (s.rag_enabled ≡ true → s.rag_reranker_enabled ≡ true → d.cross_encoder ≡ ok tt)
    → d.store ≢ misconfigured
    → (s.checkpoint_enabled ≡ true → d.database ≡ ok tt)
    → (s.redis_enabled ≡ true → d.ping ≡ pong)
    → (started : Started) × (lifespan s d ≡ ok started)
      × (is_none started.rate_limiter ≡ not s.redis_enabled)
      × (is_none started.order_cache_ttl ≡ not s.redis_enabled)
      × (started.has_threads ≡ s.checkpoint_enabled)
unfolding lifespan
lifespan-starts s d size valid named keyed segment probed loaded configured stored reached =
    let (model, chat) = create_chat_model-ok s named keyed in
    let (b, built) =
      redis_key_builder-ok s.redis_key_prefix s.environment (key_prefix s valid) segment in
    let (rag, rag_started) = start_rag-ok s d size valid probed loaded configured in
    let threads = open_checkpointer-ok s d.database valid stored in
    let (status, opened) = open_redis-ok s d.ping valid reached in
    let (ttl, limiter, served, has_ttl, has_limiter) = redis_services-ok s b valid in
    (
      record {
        key_builder = b;
        rag = rag;
        has_threads = s.checkpoint_enabled;
        redis_status = status;
        order_cache_ttl = ttl;
        rate_limiter = limiter;
      },
      rw (chat, built, rag_started, threads, opened, served),
      has_limiter,
      has_ttl,
      refl,
    )

-- With checkpoints enabled and a database that does not answer, the service does not start.
lifespan-database :
    (s : Settings) (d : Dependencies) (e : Error) (started : Started)
    → s.checkpoint_enabled ≡ true
    → d.database ≡ err e
    → lifespan s d ≢ ok started
unfolding lifespan open_checkpointer
lifespan-database s d e started enabled failed h = ground arith
