-- ===== src/Graph.antt =====
-- agent-service/src/agent_service/graph/
pub mod State
pub mod Services
pub mod Routing
pub mod Nodes
pub mod Walk
