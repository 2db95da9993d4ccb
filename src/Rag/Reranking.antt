-- ===== src/Rag/Reranking.antt =====
-- `CrossEncoderReranker` of agent-service/src/agent_service/rag/reranking.py, over the scores that
-- the model gives.
use enterprise_support_agent.Base.{
  ℕ, List, [], ◌∷◌, ◌≡◌, arith, if◌then◌else◌, Result, ok, err, ◌>>=◌, ◌==◌, ltb, length,
}
use enterprise_support_agent.Base.Text.{Text}
use enterprise_support_agent.Domain.{Error, value_error, runtime_error}

-- The check of `CrossEncoderReranker.__init__`; it gives the batch size.
unfoldable pub init_reranker : ℕ → Result Error ℕ
init_reranker batch_size = if ltb batch_size 1 then err value_error else ok batch_size

module _ {Score : Type 0} (rerank : Text → List Text → ℕ → Result Error (List Score)) where
  -- `CrossEncoderReranker.score`
  unfoldable pub score : ℕ → Text → List Text → Result Error (List Score)
  score batch_size question [] = ok []
  score batch_size question (d ∷ ds) = do
    scores ← rerank question (d ∷ ds) batch_size
    if length scores == length (d ∷ ds) then ok scores else err runtime_error

  -- Scores that are given are as many as the documents, whatever the model does.
  pub length-score :
      (batch_size : ℕ) (question : Text) (documents : List Text) (scores : List Score)
      → score batch_size question documents ≡ ok scores
      → length scores ≡ length documents
  unfolding score
  length-score batch_size question [] scores h = ground arith
  length-score batch_size question (d ∷ ds) scores h = ground arith
