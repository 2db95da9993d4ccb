-- ===== src/Api/Errors.antt =====
-- agent-service/src/agent_service/api/exception_handlers.py: the response to each exception. Its
-- message and its time are left out.
pub mod Relay
use enterprise_support_agent.Base.{ℕ, Option, none, some}
use enterprise_support_agent.Base.Text.{Text, lit}
use enterprise_support_agent.Domain.{
  Error, order_not_found_error, refund_not_allowed_error, refund_outcome_unknown_error,
  idempotency_conflict_error, idempotency_in_progress_error, idempotency_unavailable_error,
  business_service_timeout_error, business_service_unavailable_error, upstream_service_error,
  upstream_contract_error, conversation_thread_not_found_error,
  conversation_persistence_unavailable_error, approval_not_pending_error, rate_limit_exceeded_error,
  rate_limit_unavailable_error,
}

-- The response, with its "Retry-After" header.
pub record ErrorResponse : Type 0 where
  pub status_code : ℕ
  pub code : Text
  pub retry_after : Option ℕ

-- `error_response`
unfoldable pub error_response : ℕ → Text → ErrorResponse
error_response status_code code = record {
  status_code = status_code;
  code = code;
  retry_after = none;
}

-- The handlers of `register_exception_handlers`; an exception without one is left to FastAPI.
unfoldable pub handle : Error → Option ErrorResponse
unfolding error_response
handle (rate_limit_exceeded_error seconds) =
    some (record (error_response 429 (lit "RATE_LIMIT_EXCEEDED")) { retry_after = some seconds })
handle rate_limit_unavailable_error = some (error_response 503 (lit "RATE_LIMIT_UNAVAILABLE"))
handle conversation_thread_not_found_error =
    some (error_response 404 (lit "CONVERSATION_NOT_FOUND"))
handle conversation_persistence_unavailable_error =
    some (error_response 503 (lit "CONVERSATION_PERSISTENCE_UNAVAILABLE"))
handle approval_not_pending_error = some (error_response 409 (lit "APPROVAL_NOT_PENDING"))
handle (order_not_found_error order_id) = some (error_response 404 (lit "ORDER_NOT_FOUND"))
handle (refund_not_allowed_error order_id) = some (error_response 409 (lit "REFUND_NOT_ALLOWED"))
handle (refund_outcome_unknown_error order_id) =
    some (error_response 504 (lit "REFUND_OUTCOME_UNKNOWN"))
handle idempotency_conflict_error = some (error_response 409 (lit "IDEMPOTENCY_CONFLICT"))
handle idempotency_in_progress_error = some (error_response 409 (lit "IDEMPOTENCY_IN_PROGRESS"))
handle idempotency_unavailable_error = some (error_response 503 (lit "IDEMPOTENCY_UNAVAILABLE"))
handle business_service_unavailable_error =
    some (error_response 503 (lit "BUSINESS_SERVICE_UNAVAILABLE"))
handle business_service_timeout_error = some (error_response 504 (lit "BUSINESS_SERVICE_TIMEOUT"))
handle (upstream_service_error status_code) =
    some (error_response 502 (lit "UPSTREAM_SERVICE_ERROR"))
handle upstream_contract_error = some (error_response 502 (lit "UPSTREAM_CONTRACT_ERROR"))
handle _ = none
