-- ===== src/Rag/Retrieval.antt =====
-- agent-service/src/agent_service/rag/retrieval.py. The vector store and the reranker are arguments,
-- and so is the order of scores, which are floats there.
pub mod Ranking
use enterprise_support_agent.Base.{
  ℕ, Bool, true, false, Option, none, some, List, [], ◌∷◌, ◌≡◌, refl, arith, take, is_empty, leb,
  ltb, if◌then◌else◌, Result, ok, err, ◌==◌, ◌>>=◌,
}
use enterprise_support_agent.Base.Text.{Text, strip}
use enterprise_support_agent.Domain.{
  Error, value_error, store_error, knowledge_store_unavailable_error,
}
use enterprise_support_agent.Exec.{Exec}
use enterprise_support_agent.Rag.Context.{Document}

pub data RagAvailabilityStatus : Type 0 where
  up down disabled : RagAvailabilityStatus

-- `ResponseHandlingException`, and `UnexpectedResponse` with its status code.
pub data SearchError : Type 0 where
  response_handling : SearchError
  unexpected_response : Option ℕ → SearchError

unfoldable pub is_knowledge_store_unavailable_error : SearchError → Bool
is_knowledge_store_unavailable_error response_handling = true
is_knowledge_store_unavailable_error (unexpected_response none) = false
is_knowledge_store_unavailable_error (unexpected_response (some status_code)) = leb 500 status_code

pub record RetrievedChunk (Score : Type 0) : Type 0 where
  pub document : Document
  pub score : Score
  pub retrieval_score : Option Score

-- `search` takes the query, `k` and the tenant of the filter; `reranker` the question and the
-- contents.
pub record KnowledgeRetriever (Score : Type 0) : Type 0 where
  pub search : Text → ℕ → Text → Result SearchError (List (Document × Score))
  pub top_k : ℕ
  pub candidate_k : ℕ
  pub reranker : Option (Text → List Text → Result Error (List Score))

-- `candidate_k or top_k`
abbrev resolved_candidate_k : ℕ → Option ℕ → ℕ
resolved_candidate_k top_k none = top_k
resolved_candidate_k top_k (some k) = if k == 0 then top_k else k

-- The checks of `KnowledgeRetriever.__init__`; it gives the two numbers.
unfoldable pub init_retriever : ℕ → Option ℕ → Result Error (ℕ × ℕ)
init_retriever top_k candidate_k =
    if ltb top_k 1
    then err value_error
    else if ltb (resolved_candidate_k top_k candidate_k) top_k
    then err value_error
    else ok (top_k, resolved_candidate_k top_k candidate_k)

module _ {Score : Type 0} (ge : Score → Score → Bool) where
  abbrev pub candidates_of : List (Document × Score) → List (RetrievedChunk Score)
  candidates_of [] = []
  candidates_of ((d, s) ∷ results) =
      record { document = d; score = s; retrieval_score = none } ∷ candidates_of results

  abbrev pub contents : List (RetrievedChunk Score) → List Text
  contents [] = []
  contents (c ∷ cs) = c.document.page_content ∷ contents cs

  -- The comprehension over `zip(candidates, rerank_scores, strict=True)`.
  unfoldable pub rescored :
      List (RetrievedChunk Score) → List Score → Result Error (List (RetrievedChunk Score))
  rescored [] [] = ok []
  rescored (c ∷ cs) (s ∷ ss) = do
    rest ← rescored cs ss
    ok (record { document = c.document; score = s; retrieval_score = some c.score } ∷ rest)
  rescored _ _ = err value_error

  -- `sort(key=lambda chunk: chunk.score, reverse=True)`, which keeps the order of equal scores.
  unfoldable pub insert :
      RetrievedChunk Score → List (RetrievedChunk Score) → List (RetrievedChunk Score)
  insert c [] = c ∷ []
  insert c (d ∷ ds) = let rest = insert c ds in if ge c.score d.score then c ∷ d ∷ ds else d ∷ rest

  unfoldable pub sort : List (RetrievedChunk Score) → List (RetrievedChunk Score)
  unfolding insert
  sort [] = []
  sort (c ∷ cs) = insert c (sort cs)

  -- What follows the search.
  unfoldable pub ranked :
      ℕ
      → Option (Text → List Text → Result Error (List Score))
      → Text
      → List (RetrievedChunk Score)
      → Result Error (List (RetrievedChunk Score))
  unfolding sort rescored
  ranked top_k none question candidates = ok (take top_k candidates)
  ranked top_k (some score) question [] = ok []
  ranked top_k (some score) question (c ∷ cs) = do
    scores ← score question (contents (c ∷ cs))
    chunks ← rescored (c ∷ cs) scores
    ok (take top_k (sort chunks))

  abbrev pub found :
      KnowledgeRetriever Score
      → Text
      → Result SearchError (List (Document × Score))
      → Exec RagAvailabilityStatus (List (RetrievedChunk Score))
  found r question (err e) status =
      if is_knowledge_store_unavailable_error e
      then (err knowledge_store_unavailable_error, down)
      else (err store_error, status)
  found r question (ok results) status =
      (ranked r.top_k r.reranker question (candidates_of results), up)

  -- `retrieve`
  unfoldable pub retrieve :
      KnowledgeRetriever Score
      → Text
      → Text
      → Exec RagAvailabilityStatus (List (RetrievedChunk Score))
  unfolding is_knowledge_store_unavailable_error ranked
  retrieve r question tenant_id status =
      if is_empty (strip question)
      then (err value_error, status)
      else if is_empty (strip tenant_id)
      then (err value_error, status)
      else found r (strip question) (r.search (strip question) r.candidate_k (strip tenant_id))
          status
