-- ===== src/Business/Client/Refunds.antt =====
-- What the result of a refund says of the reply, and what is sent for it.
use enterprise_support_agent.Base.{ℕ, ◌<◌, ◌≤◌, some, ◌≡◌, Result, ok, err}
use enterprise_support_agent.Base.Text.{Text, lit}
use enterprise_support_agent.Domain.{
  OrderResponse, refunding, Error, order_not_found_error, refund_not_allowed_error,
  refund_outcome_unknown_error, idempotency_conflict_error, idempotency_in_progress_error,
  idempotency_unavailable_error, business_service_unavailable_error, upstream_service_error,
  upstream_contract_error,
}
use enterprise_support_agent.Business.Client.{object, Reply, response, timeout, request_error}

-- A response with this status and this "code".
abbrev Coded : ℕ → Text → Reply → Type 0
Coded n name (response status_code (object (some code) order)) = (status_code ≡ n) × (code ≡ name)
Coded n name _ = ⊥

abbrev Unknown : Reply → Type 0
Unknown timeout = Unit
Unknown r = Coded 504 (lit "IDEMPOTENCY_OUTCOME_UNKNOWN") r

abbrev Accepted : OrderResponse → Reply → Type 0
Accepted order (response status_code (object code (some o))) =
    (status_code < 400) × (o ≡ order) × (order.status ≡ refunding)
Accepted order _ = ⊥

abbrev HasStatus : ℕ → Reply → Type 0
HasStatus n (response status_code payload) = status_code ≡ n
HasStatus n _ = ⊥

abbrev IsResponse : Reply → Type 0
IsResponse (response status_code payload) = status_code < 400
IsResponse _ = ⊥

-- What a result tells of the reply to the refund of an order.
abbrev pub Explains : Text → Reply → Result Error OrderResponse → Type 0
Explains order_id reply (ok order) = Accepted order reply
Explains order_id reply (err (refund_outcome_unknown_error id)) = (id ≡ order_id) × Unknown reply
Explains order_id reply (err (order_not_found_error id)) = (id ≡ order_id) × HasStatus 404 reply
Explains order_id reply (err (refund_not_allowed_error id)) =
    (id ≡ order_id) × Coded 409 (lit "REFUND_NOT_ALLOWED") reply
Explains order_id reply (err idempotency_conflict_error) =
    Coded 409 (lit "IDEMPOTENCY_CONFLICT") reply
Explains order_id reply (err idempotency_in_progress_error) =
    Coded 409 (lit "IDEMPOTENCY_IN_PROGRESS") reply
Explains order_id reply (err idempotency_unavailable_error) =
    Coded 503 (lit "IDEMPOTENCY_UNAVAILABLE") reply
Explains order_id reply (err business_service_unavailable_error) = reply ≡ request_error
Explains order_id reply (err (upstream_service_error n)) = HasStatus n reply × (400 ≤ n)
Explains order_id reply (err upstream_contract_error) = IsResponse reply
Explains order_id reply (err _) = ⊥
