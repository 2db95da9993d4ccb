-- ===== src/Tests/Startup.antt =====
-- A start of the service, and an environment with which it does not start.
use enterprise_support_agent.Base.{true, not, none, some, ◌≡◌, refl, arith, ok, err, is_none}
use enterprise_support_agent.Base.Text.{lit, strip, is_space}
use enterprise_support_agent.Domain.{value_error}
use enterprise_support_agent.Redis.Keys.{is_segment, redis_key_builder, validated_segment}
use enterprise_support_agent.Config.{
  Settings, is_key_prefix, has_valid_fields, settings_of, validate_rag_chunking,
  validate_rag_ranking, validate_checkpoint_configuration, validate_redis_configuration,
}
use enterprise_support_agent.Config.Startup.{
  Dependencies, pong, connected, create_chat_model, Started, lifespan,
}
use enterprise_support_agent.Config.Startup.Starts.{lifespan-starts}

-- The defaults, with a model, Redis and checkpoints.
abbrev settings : Settings
settings = record {
  environment = lit "local";
  business_service_max_retries = 2;
  internal_service_token = none;
  llm_model = some (lit "m");
  llm_api_key = some (lit "k");
  llm_max_retries = 2;
  checkpoint_enabled = true;
  checkpoint_database_url = some (lit "db");
  redis_enabled = true;
  redis_url = some (lit "redis");
  redis_key_prefix = lit "esa";
  order_cache_ttl_seconds = 15;
  chat_rate_limit_requests = 10;
  chat_rate_limit_window_seconds = 60;
  rag_enabled = true;
  rag_candidate_k = 10;
  rag_reranker_enabled = true;
  rag_reranker_batch_size = 8;
  rag_top_k = 3;
  rag_chunk_size = 500;
  rag_chunk_overlap = 80;
}

abbrev dependencies : Dependencies
dependencies = record {
  probe_vector = ok 384;
  cross_encoder = ok tt;
  store = connected;
  database = ok tt;
  ping = pong;
}

accepted : settings_of settings ≡ ok settings
unfolding settings_of has_valid_fields is_key_prefix validate_rag_chunking validate_rag_ranking
    validate_checkpoint_configuration validate_redis_configuration
accepted = refl

local_is_segment : is_segment (strip (lit "local")) ≡ true
unfolding is_segment strip is_space
local_is_segment = refl

lifespan-starts_example :
    (started : Started) × (lifespan settings dependencies ≡ ok started)
    × (is_none started.rate_limiter ≡ not true)
    × (is_none started.order_cache_ttl ≡ not true)
    × (started.has_threads ≡ true)
lifespan-starts_example =
    lifespan-starts settings dependencies 383 accepted refl refl local_is_segment (λ p. refl)
      (λ p q. refl) (λ p. ground arith) (λ p. refl) (λ p. refl)

-- The settings do not check the environment.
abbrev dotted : Settings
dotted = record settings { environment = lit "eu.west" }

accepts_dotted : settings_of dotted ≡ ok dotted
unfolding settings_of has_valid_fields is_key_prefix validate_rag_chunking validate_rag_ranking
    validate_checkpoint_configuration validate_redis_configuration
accepts_dotted = refl

dotted_fails : lifespan dotted dependencies ≡ err value_error
unfolding lifespan create_chat_model redis_key_builder validated_segment is_segment strip is_space
dotted_fails = refl
