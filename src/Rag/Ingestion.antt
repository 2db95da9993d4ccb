-- ===== src/Rag/Ingestion.antt =====
-- agent-service/src/agent_service/rag/ingestion.py and services/knowledge_ingestion.py. The vector
-- store's `delete` and `add_documents` are arguments.
pub mod Groups
pub mod Grouping
pub mod Points
pub mod Tenants
pub mod Complete
use enterprise_support_agent.Base.{
  ℕ, zero, suc, ◌<◌, Bool, true, false, Option, none, some, List, [], ◌∷◌, ◌≡◌, refl, arith,
  if◌then◌else◌, Result, ok, err, ◌>>=◌, ◌&&◌, leb, all, length,
}
use enterprise_support_agent.Base.Text.{Text, lit, text_eq}
use enterprise_support_agent.Base.Json.{decimal}
use enterprise_support_agent.Domain.{
  Error, value_error, key_error, invalid_tenant_id_error, knowledge_catalog_not_found_error,
}
use enterprise_support_agent.Exec.{Exec, continue}
use enterprise_support_agent.Redis.Keys.{is_alphanumeric, is_segment_char}
use enterprise_support_agent.Rag.Context.{Document, Metadata, MetaValue, text, number, metadata_get}
use enterprise_support_agent.Rag.Documents.{Splitters, Directory, load_and_split_catalog}

-- The points of a collection. `delete` takes the tenant and the document of the filter.
pub record VectorStore : Type 1 where
  pub Points : Type 0
  pub delete : Text → Text → Exec Points (Unit {0})
  pub add_documents : List Document → List Text → Exec Points (Unit {0})

abbrev pub str_of : Option MetaValue → Result Error Text
str_of none = err key_error
str_of (some (text s)) = ok s
str_of (some (number n)) = ok (decimal n)

-- `str(chunk.metadata[key])`
unfoldable pub metadata_str : Text → Document → Result Error Text
metadata_str key chunk = str_of (metadata_get chunk.metadata key)

-- `[str(chunk.metadata[key]) for chunk in chunks]`
unfoldable pub metadata_strs : Text → List Document → Result Error (List Text)
unfolding metadata_str
metadata_strs key [] = ok []
metadata_strs key (chunk ∷ chunks) = do
  value ← metadata_str key chunk
  values ← metadata_strs key chunks
  ok (value ∷ values)

-- The only element of `set(values)`.
unfoldable pub only_value : List Text → Result Error Text
only_value [] = err value_error
only_value (value ∷ values) =
    if all (λ other. text_eq other value) values then ok value else err value_error

-- `replace_document` up to its calls of the store: the tenant, the document and the chunks' ids.
unfoldable pub replacement : List Document → Result Error (Text × Text × List Text)
unfolding metadata_strs only_value
replacement [] = err value_error
replacement (chunk ∷ chunks) = do
  tenant_ids ← metadata_strs (lit "tenant_id") (chunk ∷ chunks)
  document_ids ← metadata_strs (lit "document_id") (chunk ∷ chunks)
  tenant_id ← only_value tenant_ids
  document_id ← only_value document_ids
  chunk_ids ← metadata_strs (lit "chunk_id") (chunk ∷ chunks)
  ok (tenant_id, document_id, chunk_ids)

-- A key of `chunks_by_document`.
abbrev pub Key : Type 0
Key = Text × Text

unfoldable pub key_of : Document → Result Error Key
unfolding metadata_str
key_of chunk = do
  tenant_id ← metadata_str (lit "tenant_id") chunk
  document_id ← metadata_str (lit "document_id") chunk
  ok (tenant_id, document_id)

abbrev pub key_is : Key → Key → Bool
key_is (tenant_id, document_id) (tenant_id', document_id') =
    text_eq tenant_id tenant_id' && text_eq document_id document_id'

abbrev pub Groups : Type 0
Groups = List (Key × List Document)

-- `chunks_by_document`; a key keeps the place of its first chunk. The chunks are taken from the
-- last one on, so that each is put before the later ones of its key, and its key to the front.
unfoldable pub group_without : Key → Groups → Groups
group_without key [] = []
group_without key ((k, chunks) ∷ groups) =
    let rest = group_without key groups in if key_is k key then rest else (k, chunks) ∷ rest

unfoldable pub group_at : Key → Groups → List Document
group_at key [] = []
group_at key ((k, chunks) ∷ groups) =
    let rest = group_at key groups in if key_is k key then chunks else rest

unfoldable pub chunks_by_document : List Document → Result Error Groups
unfolding key_of group_without group_at
chunks_by_document [] = ok []
chunks_by_document (chunk ∷ chunks) = do
  key ← key_of chunk
  groups ← chunks_by_document chunks
  ok ((key, chunk ∷ group_at key groups) ∷ group_without key groups)

pub record IngestionResult : Type 0 where
  pub document_count : ℕ
  pub chunk_count : ℕ

-- `TENANT_ID_PATTERN.fullmatch`
unfoldable pub is_tenant_id : Text → Bool
is_tenant_id [] = false
is_tenant_id (c ∷ s) = is_alphanumeric c && all is_segment_char s && leb (length s) 63

module _ (V : VectorStore) where
  abbrev pub then_add :
      List Document
      → List Text
      → Result Error (Unit {0}) × V.Points
      → Result Error (Unit {0}) × V.Points
  then_add chunks ids (ok _, s) = V.add_documents chunks ids s
  then_add chunks ids (err e, s) = (err e, s)

  unfoldable pub replace_document : List Document → Exec V.Points (Unit {0})
  replace_document chunks = continue (replacement chunks) (λ (tenant_id, document_id, chunk_ids).
      λ s. then_add chunks chunk_ids (V.delete tenant_id document_id s))

  -- The loop over `chunks_by_document.values()`.
  unfoldable pub replace_documents : Groups → Exec V.Points (Unit {0})
  replace_documents [] s = (ok tt, s)
  replace_documents ((key, chunks) ∷ groups) s =
      let (r, s') = replace_document chunks s in continue r (λ _. replace_documents groups) s'

  unfoldable pub ingest : List Document → Exec V.Points IngestionResult
  ingest chunks = continue (chunks_by_document chunks) (λ groups. λ s.
      let (r, s') = replace_documents groups s in
      (r >>= λ _. ok (record { document_count = length groups; chunk_count = length chunks }), s'))

  unfoldable pub ingest_catalog : Splitters → Directory → Exec V.Points IngestionResult
  ingest_catalog S dir = continue (load_and_split_catalog S dir) ingest

  -- `KnowledgeIngestionService.reindex_tenant`. `locate` says of a tenant's path that it leaves the
  -- knowledge directory, that no catalog is there, or which directory it is.
  unfoldable pub reindex_tenant :
      Splitters → (Text → Result Error Directory) → Text → Exec V.Points IngestionResult
  reindex_tenant S locate tenant_id =
      if is_tenant_id tenant_id
      then (continue (locate tenant_id) (ingest_catalog S))
      else (λ s. (err invalid_tenant_id_error, s))
