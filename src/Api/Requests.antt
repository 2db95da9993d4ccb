-- ===== src/Api/Requests.antt =====
-- What the endpoints ask of a request: agent-service/src/agent_service/api/dependencies.py,
-- api/schemas/chat.py, api/schemas/knowledge.py, and the headers and `clean_identity` of
-- api/routes/chat.py. FastAPI runs the dependencies of a route first, in their order, and answers
-- 422 where its validation of the headers and of the body fails.
pub mod Segments
use enterprise_support_agent.Base.{
  ℕ, Bool, true, false, Option, none, some, List, [], ◌∷◌, if◌then◌else◌, Result, ok, err, ◌>>=◌,
  ◌&&◌, ◌||◌, leb, length, all, is_empty,
}
use enterprise_support_agent.Base.Text.{Text, text_eq, strip}
use enterprise_support_agent.Domain.{Error, http_exception}
use enterprise_support_agent.Redis.Keys.{is_alphanumeric, is_segment_char}

-- `verify_internal_service_token`, on the token of the settings and on the header.
unfoldable pub verify_internal_service_token : Option Text → Option Text → Result Error (Unit {0})
verify_internal_service_token none provided_token = err (http_exception 503)
verify_internal_service_token (some expected_token) none = err (http_exception 401)
verify_internal_service_token (some expected_token) (some provided_token) =
    if text_eq provided_token expected_token then ok tt else err (http_exception 401)

-- `get_conversation_thread_service` and `get_knowledge_ingestion_service`
unfoldable pub get_service {ℓ} : {A : Type ℓ} → Option A → Result Error A
get_service none = err (http_exception 503)
get_service (some service) = ok service

-- A required field.
abbrev pub required {ℓ} : {A : Type ℓ} → Option A → Result Error A
required none = err (http_exception 422)
required (some value) = ok value

-- A required header or field with a `max_length`.
unfoldable pub max_length : ℕ → Option Text → Result Error Text
max_length n none = err (http_exception 422)
max_length n (some value) = if leb (length value) n then ok value else err (http_exception 422)

-- `pattern=r"^[A-Za-z0-9][A-Za-z0-9_-]*$"`
unfoldable pub matches_pattern : Text → Bool
matches_pattern [] = false
matches_pattern (c ∷ s) = is_alphanumeric c && all is_segment_char s

-- The header "Idempotency-Key".
unfoldable pub idempotency_header : Option Text → Result Error Text
unfolding max_length matches_pattern
idempotency_header header = do
  value ← max_length 128 header
  if leb 1 (length value) && matches_pattern value then ok value else err (http_exception 422)

-- `KnowledgeReindexRequest`
unfoldable pub knowledge_reindex_request : Option Text → Result Error Text
unfolding max_length matches_pattern
knowledge_reindex_request field = do
  value ← max_length 64 field
  if leb 1 (length value) && matches_pattern value then ok value else err (http_exception 422)

-- `ChatRequest.validate_not_blank`
unfoldable pub validate_not_blank : Text → Result Error Text
validate_not_blank value =
    if is_empty (strip value) then err (http_exception 422) else ok (strip value)

pub record ChatRequest : Type 0 where
  pub thread_id : Text
  pub message : Text

-- The validation of a body with these two fields, `none` for one that is missing or no string.
unfoldable pub chat_request : Option Text → Option Text → Result Error ChatRequest
unfolding max_length validate_not_blank
chat_request thread_id message = do
  thread_id ← max_length 128 thread_id
  message ← max_length 4000 message
  thread_id ← validate_not_blank thread_id
  message ← validate_not_blank message
  ok (record { thread_id = thread_id; message = message })

pub record Identity : Type 0 where
  pub tenant_id : Text
  pub user_id : Text

-- `clean_identity`
unfoldable pub clean_identity : Text → Text → Result Error Identity
clean_identity tenant_id user_id =
    if is_empty (strip tenant_id) || is_empty (strip user_id)
    then err (http_exception 422)
    else ok (record { tenant_id = strip tenant_id; user_id = strip user_id })

-- The headers "X-Tenant-Id" and "X-User-Id", with `clean_identity`.
unfoldable pub identity_headers : Option Text → Option Text → Result Error Identity
unfolding max_length clean_identity
identity_headers tenant_id user_id = do
  tenant_id ← max_length 64 tenant_id
  user_id ← max_length 64 user_id
  clean_identity tenant_id user_id
