-- ===== src/Api/Knowledge.antt =====
-- agent-service/src/agent_service/api/routes/knowledge.py and api/routes/health.py.
use enterprise_support_agent.Base.{
  Option, some, ◌≡◌, ◌≢◌, arith, Result, ok, err, Result-cases, Option-cases, inl, inr,
}
use enterprise_support_agent.Base.Text.{Text}
use enterprise_support_agent.Domain.{
  Error, invalid_tenant_id_error, knowledge_catalog_not_found_error, http_exception,
}
use enterprise_support_agent.Exec.{Exec, lift, ◌>>=◌}
use enterprise_support_agent.Redis.Availability.{RedisAvailabilityStatus}
use enterprise_support_agent.Rag.Retrieval.{RagAvailabilityStatus, up}
use enterprise_support_agent.Rag.Ingestion.{IngestionResult}
use enterprise_support_agent.Api.Requests.{
  verify_internal_service_token, get_service, knowledge_reindex_request,
}

pub record KnowledgeReindexResponse : Type 0 where
  pub tenant_id : Text
  pub result : IngestionResult

-- The `except` clauses of `reindex_knowledge`.
unfoldable pub reindex_error : Error → Error
reindex_error invalid_tenant_id_error = http_exception 422
reindex_error knowledge_catalog_not_found_error = http_exception 404
reindex_error e = e

module _ {W : Type 0} where
  abbrev answered :
      Text → Result Error IngestionResult × W → Result Error KnowledgeReindexResponse × W
  answered tenant_id (ok result, w) = (ok (record { tenant_id = tenant_id; result = result }), w)
  answered tenant_id (err e, w) = (err (reindex_error e), w)

  -- `reindex_knowledge`, with `reindex_tenant` of the service, if there is one.
  unfoldable pub reindex_knowledge :
      Option Text
      → Option (Text → Exec W IngestionResult)
      → Option Text
      → Option Text
      → Exec W KnowledgeReindexResponse
  reindex_knowledge expected_token service token field = do
    _ ← lift (verify_internal_service_token expected_token token)
    reindex_tenant ← lift (get_service service)
    tenant_id ← lift (knowledge_reindex_request field)
    λ w. answered tenant_id (reindex_tenant tenant_id w)

  -- The stored knowledge changes only under the right token, with a service and a valid tenant, and
  -- then as the service reindexes that tenant.
  pub reindex_knowledge-changes :
      (expected_token : Option Text) (service : Option (Text → Exec W IngestionResult))
      (token field : Option Text) (w : W)
      → (reindex_knowledge expected_token service token field w).1 ≢ w
      → (reindex_tenant : Text → Exec W IngestionResult) × (tenant_id : Text)
        × (verify_internal_service_token expected_token token ≡ ok tt)
        × (service ≡ some reindex_tenant)
        × (knowledge_reindex_request field ≡ ok tenant_id)
        × ((reindex_knowledge expected_token service token field w).1
            ≡ (reindex_tenant tenant_id w).1)
  unfolding reindex_knowledge get_service
  reindex_knowledge-changes expected_token service token field w changed =
      elim (Option-cases service) [
        | inl missing ↦ absurd (ground arith)
        | inr (reindex_tenant, present) ↦ elim (Result-cases (knowledge_reindex_request field)) [
          | inr (e, refused) ↦ absurd (ground arith)
          | inl (tenant_id, valid) ↦
              (reindex_tenant, tenant_id, ground arith, present, valid, ground arith)
        ]
      ]

pub data HealthStatus : Type 0 where
  healthy degraded : HealthStatus

-- The components' statuses, `none` for "UNKNOWN".
pub record HealthResponse : Type 0 where
  pub status : HealthStatus
  pub environment : Text
  pub rag : Option RagAvailabilityStatus
  pub redis : Option RedisAvailabilityStatus

abbrev status_of : Option RagAvailabilityStatus → HealthStatus
status_of (some up) = healthy
status_of _ = degraded

unfoldable pub health :
    Text → Option RagAvailabilityStatus → Option RedisAvailabilityStatus → HealthResponse
health environment rag redis = record {
  status = status_of rag;
  environment = environment;
  rag = rag;
  redis = redis;
}
