-- ===== src/Rag/Documents.antt =====
-- agent-service/src/agent_service/rag/documents.py: a tenant's catalog as chunks with metadata. The
-- splitters of LangChain, `uuid5` and the files are arguments; a date stands as its ISO text.
pub mod Chunks
use enterprise_support_agent.Base.{
  ℕ, zero, suc, Bool, true, false, Option, none, some, List, [], ◌∷◌, ◌++◌, ◌≡◌, refl, arith, map,
  is_empty, if◌then◌else◌, Result, ok, err, ◌>>=◌, ◌||◌, all, not, All,
}
use enterprise_support_agent.Base.Text.{Text, lit, text_eq}
use enterprise_support_agent.Base.Json.{decimal}
use enterprise_support_agent.Domain.{Error, value_error, validation_error}
use enterprise_support_agent.Rag.Context.{Document, Metadata, MetaValue, text, number}

pub record KnowledgeDocumentEntry : Type 0 where
  pub document_id : Text
  pub title : Text
  pub source : Text
  pub version : Text
  pub effective_date : Text

pub record KnowledgeCatalog : Type 0 where
  pub tenant_id : Text
  pub documents : List KnowledgeDocumentEntry

abbrev is_entry : KnowledgeDocumentEntry → Bool
is_entry entry = not (
    is_empty entry.document_id
    || is_empty entry.title
    || is_empty entry.source
    || is_empty entry.version)

-- The lengths that `KnowledgeCatalog` and `KnowledgeDocumentEntry` ask for.
unfoldable pub validate_catalog : KnowledgeCatalog → Result Error KnowledgeCatalog
validate_catalog catalog =
    if is_empty catalog.tenant_id
      || is_empty catalog.documents
      || not (all is_entry catalog.documents)
    then err validation_error
    else ok catalog

-- `MarkdownHeaderTextSplitter.split_text`, `RecursiveCharacterTextSplitter.split_documents` and
-- `str(uuid5(NAMESPACE_URL, name))`.
pub record Splitters : Type 0 where
  pub split_text : Text → List Document
  pub split_documents : List Document → List Document
  pub uuid5 : Text → Text

-- Each part of a document has the document's metadata.
abbrev pub IsSplitters : Splitters → Type 1
IsSplitters S =
    (P : Metadata → Type 0) (sections : List Document)
    → All (λ d. P d.metadata) sections
    → All (λ d. P d.metadata) (S.split_documents sections)

-- The directory of the catalog: its text as it parses, or an exception; the text of a source, or an
-- exception, or `none` for a source outside of the directory.
pub record Directory : Type 0 where
  pub catalog : Result Error KnowledgeCatalog
  pub source_text : Text → Option (Result Error Text)

-- `metadata[key] = value`
unfoldable pub metadata_set : Metadata → Text × MetaValue → Metadata
metadata_set [] (key, value) = (key, value) ∷ []
metadata_set ((k, v) ∷ m) (key, value) =
    let rest = metadata_set m (key, value) in
    if text_eq k key then (k, value) ∷ m else (k, v) ∷ rest

-- `metadata.update(items)`
unfoldable pub metadata_update : Metadata → List (Text × MetaValue) → Metadata
unfolding metadata_set
metadata_update m [] = m
metadata_update m (item ∷ items) = metadata_update (metadata_set m item) items

abbrev pub with_metadata : List (Text × MetaValue) → Document → Document
with_metadata items d = record d { metadata = metadata_update d.metadata items }

abbrev pub source_or_raise : Option (Result Error Text) → Result Error Text
source_or_raise none = err value_error
source_or_raise (some r) = r

module _ (S : Splitters) where
  unfoldable pub build_chunk_id : Text → Text → ℕ → Text
  build_chunk_id tenant_id document_id chunk_index =
      S.uuid5 (tenant_id ++ 58 ∷ document_id ++ 58 ∷ decimal chunk_index)

  -- What is noted of the entry in each section.
  abbrev pub entry_metadata : Text → KnowledgeDocumentEntry → List (Text × MetaValue)
  entry_metadata tenant_id entry =
      (lit "tenant_id", text tenant_id)
      ∷ (lit "document_id", text entry.document_id)
      ∷ (lit "title", text entry.title)
      ∷ (lit "source", text entry.source)
      ∷ (lit "version", text entry.version)
      ∷ (lit "effective_date", text entry.effective_date)
      ∷ []

  abbrev pub chunk_metadata : Text → Text → ℕ → List (Text × MetaValue)
  chunk_metadata tenant_id document_id chunk_index =
      (lit "chunk_index", number chunk_index)
      ∷ (lit "chunk_id", text (build_chunk_id tenant_id document_id chunk_index))
      ∷ []

  -- The loop over `enumerate(document_chunks)`.
  unfoldable pub numbered : Text → Text → ℕ → List Document → List Document
  unfolding metadata_update build_chunk_id
  numbered tenant_id document_id chunk_index [] = []
  numbered tenant_id document_id chunk_index (chunk ∷ chunks) =
      with_metadata (chunk_metadata tenant_id document_id chunk_index) chunk
      ∷ numbered tenant_id document_id (suc chunk_index) chunks

  -- The chunks of an entry with this text.
  abbrev pub document_chunks : Text → KnowledgeDocumentEntry → Text → List Document
  document_chunks tenant_id entry markdown = numbered tenant_id entry.document_id 0 (
      S.split_documents
        (map (with_metadata (entry_metadata tenant_id entry)) (S.split_text markdown)))

  -- The chunks of one entry.
  unfoldable pub entry_chunks :
      Directory → Text → KnowledgeDocumentEntry → Result Error (List Document)
  unfolding numbered metadata_update
  entry_chunks dir tenant_id entry = do
    markdown ← source_or_raise (dir.source_text entry.source)
    ok (document_chunks tenant_id entry markdown)

  -- The loop over the entries.
  unfoldable pub all_chunks :
      Directory → Text → List KnowledgeDocumentEntry → Result Error (List Document)
  unfolding entry_chunks
  all_chunks dir tenant_id [] = ok []
  all_chunks dir tenant_id (entry ∷ entries) = do
    chunks ← entry_chunks dir tenant_id entry
    rest ← all_chunks dir tenant_id entries
    ok (chunks ++ rest)

  unfoldable pub load_and_split_catalog : Directory → Result Error (List Document)
  unfolding validate_catalog all_chunks
  load_and_split_catalog dir = do
    parsed ← dir.catalog
    catalog ← validate_catalog parsed
    all_chunks dir catalog.tenant_id catalog.documents
