-- ===== src/Config/Startup.antt =====
-- The start-up: `lifespan` of agent-service/src/agent_service/core/lifespan.py with `open_redis` of
-- core/redis.py, `open_checkpointer` of core/checkpoint.py, `create_chat_model` of
-- integrations/llm/model.py and `create_embedding_resources` of rag/embeddings.py. What the models
-- and the connections do is an argument; connections are not closed here, and a component stands as
-- what the other modules know of it.
pub mod Starts
use enterprise_support_agent.Base.{
  ℕ, Bool, true, false, Option, none, some, List, [], ◌∷◌, ◌≡◌, refl, arith, if◌then◌else◌, Result,
  ok, err, ◌>>=◌, ◌==◌,
}
use enterprise_support_agent.Base.Text.{Text}
use enterprise_support_agent.Domain.{
  Error, value_error, runtime_error, redis_configuration_error, redis_unavailable_error,
  collection_error,
}
use enterprise_support_agent.Redis.Availability.{
  RedisAvailabilityStatus, up as redis_up, down as redis_down, disabled as redis_disabled,
}
use enterprise_support_agent.Redis.Keys.{RedisKeyBuilder, redis_key_builder}
use enterprise_support_agent.Redis.RateLimiter.{ChatRateLimiter, chat_rate_limiter}
use enterprise_support_agent.Business.Cached.{init_ttl}
use enterprise_support_agent.Rag.Retrieval.{
  RagAvailabilityStatus, up as rag_up, down as rag_down, disabled as rag_disabled, init_retriever,
}
use enterprise_support_agent.Rag.Reranking.{init_reranker}
use enterprise_support_agent.Config.{Settings}

-- What `ping` does.
pub data Ping : Type 0 where
  pong authentication_error redis_error : Ping

abbrev pinged : Ping → Result Error (Bool × RedisAvailabilityStatus)
pinged pong = ok (true, redis_up)
pinged authentication_error = err redis_configuration_error
pinged redis_error = err redis_unavailable_error

-- `open_redis`: is there a client, and the status.
unfoldable pub open_redis : Settings → Ping → Result Error (Bool × RedisAvailabilityStatus)
open_redis s ping =
    if s.redis_enabled
    then elim s.redis_url [ none ↦ err value_error | some url ↦ pinged ping ]
    else ok (false, redis_disabled)

-- `open_checkpointer`, where the pool and the two `setup` calls return or raise as `database` says:
-- is there a thread repository.
unfoldable pub open_checkpointer : Settings → Result Error (Unit {0}) → Result Error Bool
open_checkpointer s database =
    if s.checkpoint_enabled
    then elim s.checkpoint_database_url [
      | none ↦ err runtime_error
      | some url ↦ database >>= λ _. ok true
    ]
    else ok false

-- `create_chat_model`: the model's name and its key.
unfoldable pub create_chat_model : Settings → Result Error (Text × Text)
create_chat_model s = elim s.llm_model [
  | none ↦ err value_error
  | some model ↦ elim s.llm_api_key [ none ↦ err value_error | some key ↦ ok (model, key) ]
]

-- What `create_vector_store_resources` does: it returns, or Qdrant is unavailable, or it raises
-- another exception.
pub data VectorStoreStart : Type 0 where
  connected unavailable misconfigured : VectorStoreStart

-- What the RAG part of the start-up leaves: the status, and the numbers of the retriever.
pub record RagStart : Type 0 where
  pub status : RagAvailabilityStatus
  pub retriever : Option (ℕ × ℕ)
  pub batch_size : Option ℕ

-- What the start-up finds: the length of the embedding model's probe vector, the model of the
-- reranker, the vector store, the database and Redis.
pub record Dependencies : Type 0 where
  pub probe_vector : Result Error ℕ
  pub cross_encoder : Result Error (Unit {0})
  pub store : VectorStoreStart
  pub database : Result Error (Unit {0})
  pub ping : Ping

-- `create_embedding_resources`: the vector size.
unfoldable pub create_embedding_resources : Result Error ℕ → Result Error ℕ
create_embedding_resources probe_vector = do
  size ← probe_vector
  if size == 0 then err runtime_error else ok size

-- `create_cross_encoder_reranker`: its batch size.
unfoldable pub create_cross_encoder_reranker :
    Settings → Result Error (Unit {0}) → Result Error (Option ℕ)
create_cross_encoder_reranker s cross_encoder =
    if s.rag_reranker_enabled
    then (do _ ← cross_encoder; n ← init_reranker s.rag_reranker_batch_size; ok (some n))
    else ok none

abbrev connected_rag : Settings → Option ℕ → VectorStoreStart → Result Error RagStart
connected_rag s batch_size misconfigured = err collection_error
connected_rag s batch_size unavailable =
    ok (record { status = rag_down; retriever = none; batch_size = batch_size })
connected_rag s batch_size connected = do
  numbers ← init_retriever s.rag_top_k (some s.rag_candidate_k)
  ok (record { status = rag_up; retriever = some numbers; batch_size = batch_size })

unfoldable pub start_rag : Settings → Dependencies → Result Error RagStart
start_rag s d =
    if s.rag_enabled
    then (do
      size ← create_embedding_resources d.probe_vector
      batch_size ← create_cross_encoder_reranker s d.cross_encoder
      connected_rag s batch_size d.store)
    else ok (record { status = rag_disabled; retriever = none; batch_size = none })

-- What `app.state` has after the start.
pub record Started : Type 0 where
  pub key_builder : RedisKeyBuilder
  pub rag : RagStart
  pub has_threads : Bool
  pub redis_status : RedisAvailabilityStatus
  pub order_cache_ttl : Option ℕ
  pub rate_limiter : Option ChatRateLimiter

-- The services that need a Redis client.
abbrev pub redis_services :
    Settings → RedisKeyBuilder → Bool → Result Error (Option ℕ × Option ChatRateLimiter)
redis_services s key_builder false = ok (none, none)
redis_services s key_builder true = do
  ttl ← init_ttl s.order_cache_ttl_seconds
  limiter ←
      chat_rate_limiter key_builder s.chat_rate_limit_requests s.chat_rate_limit_window_seconds
  ok (some ttl, some limiter)

unfoldable pub lifespan : Settings → Dependencies → Result Error Started
lifespan s d = do
  model ← create_chat_model s
  key_builder ← redis_key_builder s.redis_key_prefix s.environment
  rag ← start_rag s d
  has_threads ← open_checkpointer s d.database
  redis ← open_redis s d.ping
  services ← redis_services s key_builder redis.0
  ok (record {
    key_builder = key_builder;
    rag = rag;
    has_threads = has_threads;
    redis_status = redis.1;
    order_cache_ttl = services.0;
    rate_limiter = services.1;
  })
