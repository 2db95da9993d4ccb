-- ===== src/Lib.antt =====
-- The enterprise support agent: a customer-support service that answers questions about orders and
-- company policies, and submits refunds after a human's approval.
--
-- A request names a tenant, a user, a conversation thread and a message. The thread service resolves
-- the thread to a checkpoint key of the compiled graph; the graph analyses the message with a
-- language model, looks up the order or the policy documents, answers, or pauses for the approval
-- of a refund; the service maps what the graph gives to a reply. Redis limits the rate of messages.
--
-- All paths are below agent-service/src/agent_service.
-- - Domain: domain/ and the exceptions. Exec: actions on a state that may raise; what was changed
--   before a raise stays so.
-- - Graph.State, Graph.Routing, Graph.Nodes: graph/state.py, graph/routing.py, graph/nodes.py, one
--   function `node_x` for each method `x`. Graph.Services: what the nodes call. The language
--   models, the order service and the retriever are functions of all calls made so far, so that
--   they may answer differently each time; every call is logged, newest first.
-- - Graph.Walk: the graph that graph/builder.py compiles. `start` is `ainvoke` on a message and
--   `resume` is `ainvoke` on a `Command(resume=...)`, which runs the paused node again. LangGraph
--   stops after 25 rounds by default, so 25 is the fuel; no way through the graph is longer than 5.
-- - Service.Threads: services/conversation_thread.py over the table of
--   integrations/conversation_threads.py. Service.Reply, Service.Stream, Service.Agent:
--   services/support_agent.py, over any compiled graph.
-- - Rag.Context: rag/context.py, over Base.Json, the two forms of `json.dumps` that are called.
--   Rag.Retrieval: rag/retrieval.py, over any vector store, reranker and order of scores.
-- - Redis.Keys, Redis.Availability, Redis.RateLimiter: core/redis_keys.py, core/redis.py,
--   services/rate_limiter.py. Redis.RateLimiter.Commands: the Redis commands, an argument, with
--   what Redis documents of them as the record `IsRedis`.
-- - Business.Orders, Business.Client: the `OrderService` protocol and the HTTP client of
--   integrations/business_service/client.py; the loop of retries is a recursion on the attempts
--   that are left. Business.Cached: integrations/business_service/cached.py over any such service.
-- - Api.Events, Api.Sse: api/streaming.py, api/sse.py, and the reader in evaluation/live.py. How a
--   text is split into lines is an argument, with what is documented of it as `IsLines`.
-- - Api.Requests, Api.Routes, Api.Knowledge, Api.Errors: api/dependencies.py, api/schemas/,
--   api/routes/ and api/exception_handlers.py. An endpoint is an action on `AppState`: what Redis
--   holds, the table of threads and the state of the graph. Api.RequestContext:
--   core/request_context.py.
-- - Rag.Documents, Rag.Ingestion, Rag.Reranking: rag/documents.py, rag/ingestion.py with
--   services/knowledge_ingestion.py, and rag/reranking.py, over any splitters, files, vector store
--   and model; `IsSplitters` and `IsVectorStore` are what is documented of them. Rag.Collections:
--   the creation and the check of a collection in rag/vector_store.py.
-- - Config, Config.Startup: core/config.py, and core/lifespan.py with the functions that it calls to
--   open Redis, the database and the model; what the connections answer is an argument.
-- - Evaluation.Cases, Evaluation.Live, Evaluation.Suite, Evaluation.Stability, Evaluation.Report,
--   Evaluation.Repeated: evaluation/agent.py, live.py, live_suite.py, live_report.py, report.py and
--   stability.py. A suite runs against
--   any runner with a state of its own; a rate is a fraction of natural numbers.
-- - Tests: each theorem that has hypotheses, applied to a concrete input.
--
-- A Python `str` is the list of its code points. `str(UUID(text))` is an argument. Not modelled:
-- LangGraph's storage of checkpoints, FastAPI, the language models, Qdrant, the texts of exceptions,
-- logs, and times, so that a Redis window does not end within a theorem about it; and, of this
-- program, the closing of connections, the settings that only libraries read,
-- evaluation/controlled_runner.py and retrieval.py, the scripts, and the Java business service.
-- A quantity and an amount of money are natural numbers, a request's body is one that was parsed,
-- and a call of Redis that raises has not run its script.
pub mod Base
pub mod Domain
pub mod Exec
pub mod Rag
pub mod Evaluation
pub mod Config
pub mod Graph
pub mod Service
pub mod Redis
pub mod Api
pub mod Business
pub mod Tests
