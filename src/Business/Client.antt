-- ===== src/Business/Client.antt =====
-- `BusinessServiceClient` of agent-service/src/agent_service/integrations/business_service/client.py.
-- The other end of the network is a function of all requests made so far, so that it may reply
-- differently each time; every request is logged, newest first, and so is every sleep.
pub mod Retries
pub mod Refunds
use enterprise_support_agent.Base.{
  ℕ, zero, suc, ◌+◌, ◌*◌, ◌^◌, min, Bool, true, false, Option, none, some, List, [], ◌∷◌, ◌++◌, ◌≡◌,
  refl, arith, if◌then◌else◌, Result, ok, err, ltb, leb, ◌==◌, ◌&&◌, ◌||◌,
}
use enterprise_support_agent.Base.Text.{Text, lit, text_eq}
use enterprise_support_agent.Domain.{
  OrderResponse, is_refunding, Error, order_not_found_error, refund_not_allowed_error,
  refund_outcome_unknown_error, idempotency_conflict_error, idempotency_in_progress_error,
  idempotency_unavailable_error, business_service_timeout_error, business_service_unavailable_error,
  upstream_service_error, upstream_contract_error, assertion_error,
}
use enterprise_support_agent.Exec.{Exec, pure, raise, lift, continue, ◌>>=◌}
use enterprise_support_agent.Business.Orders.{OrderService}

-- What `response.json()` gives: an exception, a value that is no dict, or a dict, with its "code",
-- if that is a `str`, and the order that `OrderResponse.model_validate` makes of it.
pub data Payload : Type 0 where
  not_json not_object : Payload
  object : Option Text → Option OrderResponse → Payload

-- A response, or `TimeoutException`, or another `RequestError`.
pub data Reply : Type 0 where
  response : ℕ → Payload → Reply
  timeout request_error : Reply

abbrev pub Headers : Type 0
Headers = List (Text × Text)

-- Requests by path and headers.
pub data Request : Type 0 where
  get_request post_request : Text → Headers → Request

pub record Network : Type 0 where
  pub requests : List Request
  pub slept : List ℕ

-- `quote` is `quote(text, safe="")`, and `request_id` what `get_request_id` gives.
pub record Surroundings : Type 0 where
  pub reply : List Request → Request → Reply
  pub quote : Text → Text
  pub request_id : Option Text

-- `_trusted_headers`
unfoldable pub trusted_headers : Option Text → Text → Text → Headers
trusted_headers none tenant_id user_id =
    (lit "X-Tenant-Id", tenant_id) ∷ (lit "X-User-Id", user_id) ∷ []
trusted_headers (some request_id) tenant_id user_id =
    (lit "X-Tenant-Id", tenant_id)
    ∷ (lit "X-User-Id", user_id)
    ∷ (lit "X-Request-Id", request_id)
    ∷ []

-- `_read_error_code`
unfoldable pub read_error_code : Payload → Option Text
read_error_code not_json = none
read_error_code not_object = none
read_error_code (object code order) = code

-- `OrderResponse.model_validate(response.json())`, `none` for its exceptions.
abbrev pub validated : Payload → Option OrderResponse
validated not_json = none
validated not_object = none
validated (object code order) = order

-- `error_code == name`
abbrev pub is_code : Option Text → Text → Bool
is_code none name = false
is_code (some code) name = text_eq code name

abbrev order_or_raise : Option OrderResponse → Result Error OrderResponse
order_or_raise none = err upstream_contract_error
order_or_raise (some order) = ok order

-- What `get_order` makes of the response.
unfoldable pub order_of : Text → ℕ × Payload → Result Error OrderResponse
order_of order_id (status_code, payload) =
    if status_code == 404
    then err (order_not_found_error order_id)
    else if leb 400 status_code
    then err (upstream_service_error status_code)
    else order_or_raise (validated payload)

abbrev accepted_or_raise : Option OrderResponse → Result Error OrderResponse
accepted_or_raise none = err upstream_contract_error
accepted_or_raise (some order) =
    if is_refunding order.status then ok order else err upstream_contract_error

-- What `request_refund` makes of the reply.
unfoldable pub refund_of : Text → Reply → Result Error OrderResponse
unfolding read_error_code
refund_of order_id timeout = err (refund_outcome_unknown_error order_id)
refund_of order_id request_error = err business_service_unavailable_error
refund_of order_id (response status_code payload) =
    let code = read_error_code payload in
    if status_code == 404
    then err (order_not_found_error order_id)
    else if status_code == 409 && is_code code (lit "REFUND_NOT_ALLOWED")
    then err (refund_not_allowed_error order_id)
    else if status_code == 409 && is_code code (lit "IDEMPOTENCY_CONFLICT")
    then err idempotency_conflict_error
    else if status_code == 409 && is_code code (lit "IDEMPOTENCY_IN_PROGRESS")
    then err idempotency_in_progress_error
    else if status_code == 503 && is_code code (lit "IDEMPOTENCY_UNAVAILABLE")
    then err idempotency_unavailable_error
    else if status_code == 504 && is_code code (lit "IDEMPOTENCY_OUTCOME_UNKNOWN")
    then err (refund_outcome_unknown_error order_id)
    else if leb 400 status_code
    then err (upstream_service_error status_code)
    else accepted_or_raise (validated payload)

-- `min(0.1 * (2**attempt), 1.0)`, in milliseconds.
unfoldable pub delay : ℕ → ℕ
delay attempt = min (100 * 2 ^ attempt) 1000

module _ (net : Surroundings) (max_retries : ℕ) where
  -- One request.
  abbrev pub send : Request → Network → Reply × Network
  send request w = (net.reply w.requests request, record w { requests = request ∷ w.requests })

  -- The branches of the loop's body behind a reply; `again` is the rest of the loop.
  abbrev pub judge : ℕ → Exec Network (ℕ × Payload) → Reply → Exec Network (ℕ × Payload)
  judge attempt again timeout w =
      if attempt == max_retries then (err business_service_timeout_error, w) else again w
  judge attempt again request_error w =
      if attempt == max_retries then (err business_service_unavailable_error, w) else again w
  judge attempt again (response status_code payload) w =
      if ltb status_code 500 || attempt == max_retries
      then (ok (status_code, payload), w)
      else again w

  -- The loop of `_get_with_retry`, with `left` rounds left.
  unfoldable pub attempts : ℕ → ℕ → Request → Exec Network (ℕ × Payload)
  unfolding delay
  attempts zero attempt request w = (err assertion_error, w)
  attempts (suc left) attempt request w =
      let (reply, sent) = send request w in
      judge attempt
        (λ s. attempts left (suc attempt) request (record s { slept = delay attempt ∷ s.slept }))
        reply sent

  -- `_get_with_retry`
  unfoldable pub get_with_retry : Text → Headers → Exec Network (ℕ × Payload)
  get_with_retry path headers = attempts (max_retries + 1) 0 (get_request path headers)

  unfoldable pub order_path : Text → Text
  order_path order_id = lit "/api/v1/orders/" ++ net.quote order_id

  -- `get_order`
  unfoldable pub get_order : Text → Text → Text → Exec Network OrderResponse
  unfolding get_with_retry order_path trusted_headers order_of
  get_order tenant_id user_id order_id = do
    r ← get_with_retry (order_path order_id) (trusted_headers net.request_id tenant_id user_id)
    lift (order_of order_id r)

  unfoldable pub refund_request : Text → Text → Text → Text → Request
  unfolding order_path trusted_headers
  refund_request tenant_id user_id order_id idempotency_key =
      post_request (order_path order_id ++ lit "/refund-requests") (
        trusted_headers net.request_id tenant_id user_id
        ++ (lit "Idempotency-Key", idempotency_key) ∷ [])

  -- `request_refund`
  unfoldable pub request_refund : Text → Text → Text → Text → Exec Network OrderResponse
  unfolding refund_request refund_of
  request_refund tenant_id user_id order_id idempotency_key w =
      let (reply, sent) = send (refund_request tenant_id user_id order_id idempotency_key) w in
      (refund_of order_id reply, sent)

  abbrev pub business_service_client : OrderService Network
  business_service_client = record { get_order = get_order; request_refund = request_refund }
