-- ===== src/Business/Orders.antt =====
-- The `OrderService` protocol of integrations/business_service/client.py: what the tools call, and
-- what the HTTP client and the cache implement.
use enterprise_support_agent.Base.Text.{Text}
use enterprise_support_agent.Domain.{OrderResponse}
use enterprise_support_agent.Exec.{Exec}

-- Arguments: tenant, user, order, and for a refund the idempotency key.
pub record OrderService (W : Type 0) : Type 0 where
  pub get_order : Text → Text → Text → Exec W OrderResponse
  pub request_refund : Text → Text → Text → Text → Exec W OrderResponse
