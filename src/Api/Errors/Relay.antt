-- ===== src/Api/Errors/Relay.antt =====
-- What a caller of the API is told of a refund that the business service did not accept.
use enterprise_support_agent.Base.{◌≤◌, Option-cases, some, ◌≡◌, ◌⊎◌, inl, inr, refl, arith, err}
use enterprise_support_agent.Base.Text.{Text, lit}
use enterprise_support_agent.Domain.{Error}
use enterprise_support_agent.Business.Client.{Reply, response, timeout, request_error, refund_of}
use enterprise_support_agent.Api.Errors.{ErrorResponse, error_response, handle}

-- A refund's error response `r` says what the reply said: 504 after a time-out, 503 without a
-- connection, and for a response its own status, or 502, and 400 at least.
abbrev pub IsRelayed : Reply → ErrorResponse → Type 0
IsRelayed timeout r = r ≡ error_response 504 (lit "REFUND_OUTCOME_UNKNOWN")
IsRelayed request_error r = r ≡ error_response 503 (lit "BUSINESS_SERVICE_UNAVAILABLE")
IsRelayed (response status_code payload) r =
    ((r.status_code ≡ status_code) ⊎ (r.status_code ≡ 502)) × (400 ≤ r.status_code)

-- Every failure of a refund has a handler, whose response is what `IsRelayed` says of the reply.
pub refund_of-handle :
    (order_id : Text) (reply : Reply) (e : Error)
    → refund_of order_id reply ≡ err e
    → (r : ErrorResponse) × (handle e ≡ some r) × IsRelayed reply r
unfolding refund_of handle error_response
refund_of-handle order_id timeout e h =
    (error_response 504 (lit "REFUND_OUTCOME_UNKNOWN"), ground arith, refl)
refund_of-handle order_id request_error e h =
    (error_response 503 (lit "BUSINESS_SERVICE_UNAVAILABLE"), ground arith, refl)
refund_of-handle order_id (response status_code payload) e h = elim (Option-cases (handle e)) [
  | inl unhandled ↦ absurd (ground arith)
  | inr (r, handled) ↦ (r, handled, ground arith)
]
