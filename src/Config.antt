-- ===== src/Config.antt =====
-- agent-service/src/agent_service/core/config.py, and what the start-up does with the settings. The
-- time-outs, URLs, paths and names that only libraries read are left out. A negative number is
-- below the least value of its field, so that the numbers are natural ones.
pub mod Startup
use enterprise_support_agent.Base.{
  ℕ, Bool, true, false, Option, none, some, List, [], ◌∷◌, ◌≡◌, refl, arith, if◌then◌else◌, Result,
  ok, err, ◌>>=◌, ◌>>◌, ◌&&◌, ◌||◌, ◌==◌, leb, ltb, not, is_none, all, length,
}
use enterprise_support_agent.Base.Text.{Text}
use enterprise_support_agent.Domain.{Error, validation_error}

pub record Settings : Type 0 where
  pub environment : Text
  pub business_service_max_retries : ℕ
  pub internal_service_token : Option Text
  pub llm_model : Option Text
  pub llm_api_key : Option Text
  pub llm_max_retries : ℕ
  pub checkpoint_enabled : Bool
  pub checkpoint_database_url : Option Text
  pub redis_enabled : Bool
  pub redis_url : Option Text
  pub redis_key_prefix : Text
  pub order_cache_ttl_seconds : ℕ
  pub chat_rate_limit_requests : ℕ
  pub chat_rate_limit_window_seconds : ℕ
  pub rag_enabled : Bool
  pub rag_candidate_k : ℕ
  pub rag_reranker_enabled : Bool
  pub rag_reranker_batch_size : ℕ
  pub rag_top_k : ℕ
  pub rag_chunk_size : ℕ
  pub rag_chunk_overlap : ℕ

-- `ge=low, le=high`
abbrev pub within : ℕ → ℕ → ℕ → Bool
within low high n = leb low n && leb n high

abbrev pub is_lower_alphanumeric : ℕ → Bool
is_lower_alphanumeric c = (leb b'a' c && leb c b'z') || (leb b'0' c && leb c b'9')

-- `pattern=r"^[a-z0-9][a-z0-9_-]*$"` with the lengths of `redis_key_prefix`.
unfoldable pub is_key_prefix : Text → Bool
is_key_prefix [] = false
is_key_prefix (c ∷ s) =
    is_lower_alphanumeric c
    && all (λ d. is_lower_alphanumeric d || d == b'_' || d == b'-') s
    && leb 1 (length s)
    && leb (length s) 31

abbrev is_token : Option Text → Bool
is_token none = true
is_token (some token) = leb 32 (length token)

-- The bounds of the fields.
unfoldable pub has_valid_fields : Settings → Bool
has_valid_fields s =
    within 0 5 s.business_service_max_retries
    && is_token s.internal_service_token
    && within 0 5 s.llm_max_retries
    && is_key_prefix s.redis_key_prefix
    && within 1 300 s.order_cache_ttl_seconds
    && within 1 1000 s.chat_rate_limit_requests
    && within 1 3600 s.chat_rate_limit_window_seconds
    && within 2 100 s.rag_candidate_k
    && within 1 64 s.rag_reranker_batch_size
    && within 1 20 s.rag_top_k
    && within 100 5000 s.rag_chunk_size
    && within 0 1000 s.rag_chunk_overlap

abbrev raise_if : Bool → Result Error (Unit {0})
raise_if b = if b then err validation_error else ok tt

unfoldable pub validate_rag_chunking : Settings → Result Error (Unit {0})
validate_rag_chunking s = raise_if (leb s.rag_chunk_size s.rag_chunk_overlap)

unfoldable pub validate_rag_ranking : Settings → Result Error (Unit {0})
validate_rag_ranking s = raise_if (ltb s.rag_candidate_k s.rag_top_k)

unfoldable pub validate_checkpoint_configuration : Settings → Result Error (Unit {0})
validate_checkpoint_configuration s =
    raise_if (s.checkpoint_enabled && is_none s.checkpoint_database_url)

unfoldable pub validate_redis_configuration : Settings → Result Error (Unit {0})
validate_redis_configuration s = raise_if (s.redis_enabled && is_none s.redis_url)

-- `Settings(...)`
unfoldable pub settings_of : Settings → Result Error Settings
settings_of s = do
  raise_if (not (has_valid_fields s))
  validate_rag_chunking s
  validate_rag_ranking s
  validate_checkpoint_configuration s
  validate_redis_configuration s
  ok s
