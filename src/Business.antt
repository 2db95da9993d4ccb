-- ===== src/Business.antt =====
-- agent-service/src/agent_service/integrations/business_service/
pub mod Orders
pub mod Client
pub mod Cached
