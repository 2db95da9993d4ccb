-- ===== src/Service.antt =====
-- agent-service/src/agent_service/services/
pub mod Reply
pub mod Threads
pub mod Agent
pub mod Stream
