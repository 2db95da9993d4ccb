-- ===== src/Tests.antt =====
-- Each theorem that has hypotheses, applied to a concrete input.
mod Sample
mod Codec
mod Cache
mod Graph
mod Service
mod Requests
mod Redis
mod Rag
mod Api
mod Business
mod Routes
mod Ingestion
mod Startup
mod Evaluation
