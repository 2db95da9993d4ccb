-- ===== src/Tests/Rag.antt =====
-- A context of one chunk, and a retrieval of two.
use enterprise_support_agent.Base.{
  ℕ, Bool, true, false, none, some, [], ◌∷◌, ◌≡◌, refl, arith, ok, All, length, leb,
}
use enterprise_support_agent.Base.Text.{lit, text_eq, strip, is_space}
use enterprise_support_agent.Base.Json.{dumps_indent}
use enterprise_support_agent.Rag.Context.{
  Document, text, metadata_get, stripped_text, required_metadata, chunk_content, format_chunk,
  format_chunks, format_retrieved_context, FormattedKnowledgeContext,
}
use enterprise_support_agent.Rag.Retrieval.{
  disabled, RetrievedChunk, KnowledgeRetriever, rescored, insert, sort, ranked, retrieve,
}
use enterprise_support_agent.Rag.Retrieval.Ranking.{Retrieved, retrieve-Of}
use enterprise_support_agent.Rag.Context.Numbering.{
  Numbered, HasTexts, format_retrieved_context-valid,
}

abbrev chunk : Document
chunk = record {
  page_content = lit "Refunds take 7 days.";
  metadata =
      (lit "document_id", text (lit "policy"))
      ∷ (lit "title", text (lit "Refunds"))
      ∷ (lit "version", text (lit "1"))
      ∷ [];
}

abbrev formatted : FormattedKnowledgeContext
formatted = record {
  text =
      lit
        "{\n  \"reference_documents\": [\n    {\n      \"reference_number\": 1,\n      \"title\": \"Refunds\",\n      \"section\": null,\n      \"version\": \"1\",\n      \"content\": \"Refunds take 7 days.\"\n    }\n  ]\n}";
  references =
      record {
        reference_number = 1;
        document_id = lit "policy";
        title = lit "Refunds";
        section_title = none;
        version = lit "1";
      }
      ∷ [];
}

formats : format_retrieved_context (chunk ∷ []) ≡ ok formatted
unfolding format_retrieved_context format_chunks format_chunk chunk_content required_metadata
    metadata_get stripped_text strip is_space text_eq dumps_indent
formats = refl

format_retrieved_context-valid_example :
    Numbered 1 formatted.references
    × All HasTexts formatted.references
    × (length formatted.references ≡ length (chunk ∷ []))
format_retrieved_context-valid_example =
    format_retrieved_context-valid (chunk ∷ []) formatted formats

abbrev at_least : ℕ → ℕ → Bool
at_least a b = leb b a

at_least_total : (a b : ℕ) → at_least a b ≡ false → at_least b a ≡ true
at_least_total a b h = ground arith

-- Two hits, which the reranker puts in the other order.
abbrev second_chunk : Document
second_chunk = record chunk { page_content = lit "Returns are free." }

abbrev retriever : KnowledgeRetriever ℕ
retriever = record {
  search = λ query k tenant. ok ((chunk, 5) ∷ (second_chunk, 4) ∷ []);
  top_k = 1;
  candidate_k = 2;
  reranker = some (λ question contents. ok (1 ∷ 9 ∷ []));
}

abbrev HasMetadata : Document → Type 0
HasMetadata d = d.metadata ≡ chunk.metadata

abbrev best : RetrievedChunk ℕ
best = record { document = second_chunk; score = 9; retrieval_score = some 4 }

retrieves : (retrieve at_least retriever (lit "refund?") (lit "acme") disabled).0 ≡ ok (best ∷ [])
unfolding retrieve ranked rescored sort insert strip is_space
retrieves = refl

retrieve-Of_example :
    Retrieved at_least HasMetadata retriever
      (best ∷ [])
      (retrieve at_least retriever (lit "refund?") (lit "acme") disabled).1
retrieve-Of_example =
    retrieve-Of at_least HasMetadata at_least_total retriever (lit "refund?") (lit "acme") disabled
      (best ∷ []) (refl, (refl, tt)) retrieves
