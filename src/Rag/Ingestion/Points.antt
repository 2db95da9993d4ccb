-- ===== src/Rag/Ingestion/Points.antt =====
-- The points of the store after an ingestion.
pub mod Replaced
use enterprise_support_agent.Base.{
  ℕ, Bool, true, false, Option, none, some, List, [], ◌∷◌, ◌++◌, ◌≡◌, refl, arith, if◌then◌else◌,
  Result, ok, err, ◌&&◌, ◌||◌,
}
use enterprise_support_agent.Base.Text.{Text, lit, text_eq}
use enterprise_support_agent.Domain.{Error}
use enterprise_support_agent.Rag.Context.{Document, MetaValue, text, number, metadata_get}
use enterprise_support_agent.Rag.Ingestion.{VectorStore, metadata_str, Key, Groups}

-- `MatchValue(value=value)`
abbrev pub match_value : Option MetaValue → Text → Bool
match_value (some (text s)) value = text_eq s value
match_value _ value = false

-- The filter of a tenant and a document.
abbrev pub matches : Key → Document → Bool
matches (tenant_id, document_id) c =
    match_value (metadata_get c.metadata (lit "tenant_id")) tenant_id
    && match_value (metadata_get c.metadata (lit "document_id")) document_id

abbrev pub without : Key → Option Document → Option Document
without key none = none
without key (some c) = if matches key c then none else some c

-- The last of the documents that is added under `id`, or else what was there.
abbrev pub added : Text → List Document → List Text → Option Document → Option Document
added id [] ids before = before
added id (c ∷ cs) [] before = before
added id (c ∷ cs) (i ∷ ids) before = added id cs ids (if text_eq i id then some c else before)

-- What Qdrant documents of the two calls: a point replaces the one with its identifier.
pub record IsVectorStore (V : VectorStore) : Type 0 where
  pub points : V.Points → Text → Option Document
  pub points-delete :
      (s : V.Points) (key : Key) (id : Text)
      → (V.delete key.0 key.1 s).0 ≡ ok tt
      → points (V.delete key.0 key.1 s).1 id ≡ without key (points s id)
  pub points-add :
      (s : V.Points) (cs : List Document) (ids : List Text) (id : Text)
      → (V.add_documents cs ids s).0 ≡ ok tt
      → points (V.add_documents cs ids s).1 id ≡ added id cs ids (points s id)

-- The chunk has the identifier `id`.
abbrev pub chunk_id_is : Text → Document → Bool
chunk_id_is id c = elim (metadata_str (lit "chunk_id") c) [ ok i ↦ text_eq i id | err e ↦ false ]

-- The last of the chunks with the identifier `id`, or else what was there.
abbrev pub latest : Text → List Document → Option Document → Option Document
latest id [] before = before
latest id (c ∷ cs) before = latest id cs (if chunk_id_is id c then some c else before)

abbrev pub chunks_of : Groups → List Document
chunks_of [] = []
chunks_of ((key, chunks) ∷ groups) = chunks ++ chunks_of groups

-- The document is one of the groups' documents.
abbrev pub is_covered : Groups → Document → Bool
is_covered [] c = false
is_covered ((key, chunks) ∷ groups) c = matches key c || is_covered groups c

abbrev pub uncovered : Groups → Option Document → Option Document
uncovered groups none = none
uncovered groups (some c) = if is_covered groups c then none else some c

-- What an ingestion of the groups leaves under `id`: the chunk with this identifier, or what was
-- there, unless that belongs to a document of the groups.
abbrev pub reconciled : Groups → Text → Option Document → Option Document
reconciled groups id before = latest id (chunks_of groups) (uncovered groups before)
