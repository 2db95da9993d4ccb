-- ===== src/Evaluation.antt =====
-- agent-service/src/agent_service/evaluation/: cases, single results, suites and their conclusions.
pub mod Cases
pub mod Live
pub mod Suite
pub mod Stability
pub mod Report
pub mod Repeated
