-- ===== src/Rag.antt =====
-- agent-service/src/agent_service/rag/ and services/knowledge_ingestion.py
pub mod Context
pub mod Retrieval
pub mod Documents
pub mod Ingestion
pub mod Reranking
pub mod Collections
