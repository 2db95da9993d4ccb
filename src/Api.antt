-- ===== src/Api.antt =====
-- agent-service/src/agent_service/api/, and the reader of its streams in evaluation/live.py
pub mod Events
pub mod Sse
pub mod Errors
pub mod Requests
pub mod Routes
pub mod Knowledge
pub mod RequestContext
