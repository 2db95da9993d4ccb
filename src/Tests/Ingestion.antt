-- ===== src/Tests/Ingestion.antt =====
-- The ingestion of a catalog with one document, beside a point of another tenant.
use enterprise_support_agent.Base.{
  ℕ, true, false, Option, none, some, List, [], ◌∷◌, ◌≡◌, ◌≢◌, refl, arith, Result, ok, length,
}
use enterprise_support_agent.Base.Json.{decimal}
use enterprise_support_agent.Base.Text.{Text, lit, text_eq}
use enterprise_support_agent.Domain.{Error}
use enterprise_support_agent.Rag.Context.{Document, text, metadata_get}
use enterprise_support_agent.Rag.Documents.{
  KnowledgeCatalog, validate_catalog, Splitters, IsSplitters, Directory, metadata_set,
  metadata_update, build_chunk_id, numbered, entry_chunks, all_chunks, load_and_split_catalog,
}
use enterprise_support_agent.Rag.Ingestion.{
  VectorStore, metadata_str, metadata_strs, only_value, replacement, key_of, Key, Groups,
  group_without, group_at, chunks_by_document, replace_document, replace_documents, ingest,
  ingest_catalog, is_tenant_id, reindex_tenant, IngestionResult,
}
use enterprise_support_agent.Rag.Ingestion.Groups.{IsGroups}
use enterprise_support_agent.Rag.Ingestion.Grouping.{chunks_at, chunks_under}
use enterprise_support_agent.Rag.Ingestion.Points.{IsVectorStore, without, added, reconciled}
use enterprise_support_agent.Rag.Ingestion.Points.Replaced.{ingest-reconciled}
use enterprise_support_agent.Rag.Ingestion.Tenants.{reindex_tenant-isolated}
use enterprise_support_agent.Rag.Ingestion.Complete.{IsUp, ingest_catalog-returns}

abbrev vector_store : VectorStore
vector_store = record {
  Points = Text → Option Document;
  delete = λ tenant_id document_id s. (ok tt, λ id. without (tenant_id, document_id) (s id));
  add_documents = λ cs ids s. (ok tt, λ id. added id cs ids (s id));
}

abbrev is_vector_store : IsVectorStore vector_store
is_vector_store = record {
  points = λ s id. s id;
  points-delete = λ s key id h. refl;
  points-add = λ s cs ids id h. refl;
}

is_up : IsUp vector_store
is_up = (λ s tenant_id document_id. refl, λ s cs ids. refl)

-- Nothing is split, and a name is its own identifier.
abbrev splitters : Splitters
splitters = record {
  split_text = λ s. record { page_content = s; metadata = [] } ∷ [];
  split_documents = λ ds. ds;
  uuid5 = λ s. s;
}

are_splitters : IsSplitters splitters
are_splitters = λ P ds h. h

abbrev catalog : KnowledgeCatalog
catalog = record {
  tenant_id = lit "acme";
  documents =
      record {
        document_id = lit "faq";
        title = lit "FAQ";
        source = lit "faq.md";
        version = lit "1";
        effective_date = lit "2026-01-01";
      }
      ∷ [];
}

abbrev directory : Directory
directory = record { catalog = ok catalog; source_text = λ source. some (ok (lit "hello")) }

abbrev locate : Text → Result Error Directory
locate tenant_id = ok directory

abbrev chunk : Document
chunk = record {
  page_content = lit "hello";
  metadata =
      (lit "tenant_id", text (lit "acme"))
      ∷ (lit "document_id", text (lit "faq"))
      ∷ (lit "chunk_id", text (lit "acme:faq:0"))
      ∷ [];
}

abbrev other_point : Document
other_point = record {
  page_content = lit "bye";
  metadata = (lit "tenant_id", text (lit "globex")) ∷ (lit "document_id", text (lit "faq")) ∷ [];
}

-- A point of another tenant under one identifier, and nothing else.
abbrev points : Text → Option Document
points id = elim (text_eq id (lit "p1")) [ true ↦ some other_point | false ↦ none ]

abbrev report : IngestionResult
report = record { document_count = 1; chunk_count = 1 }

-- Two chunks of one document.
abbrev two_chunks : List Document
two_chunks =
    chunk
    ∷ record {
      page_content = lit "again";
      metadata =
          (lit "tenant_id", text (lit "acme"))
          ∷ (lit "document_id", text (lit "faq"))
          ∷ (lit "chunk_id", text (lit "acme:faq:1"))
          ∷ [];
    }
    ∷ []

abbrev report_of_two : IngestionResult
report_of_two = record { document_count = 1; chunk_count = 2 }

ingests : (ingest vector_store two_chunks points).0 ≡ ok report_of_two
unfolding ingest chunks_by_document key_of metadata_str metadata_strs group_without group_at
    replace_documents replace_document replacement only_value metadata_get text_eq
ingests = refl

ingest-reconciled_example :
    (groups : Groups) × (chunks_by_document two_chunks ≡ ok groups)
    × IsGroups groups
    × ((key : Key) → chunks_under key groups ≡ chunks_at key two_chunks)
    × (report_of_two.document_count ≡ length groups)
    × (report_of_two.chunk_count ≡ 2)
    × ((id : Text)
        → (ingest vector_store two_chunks points).1 id ≡ reconciled groups id (points id))
ingest-reconciled_example =
    ingest-reconciled is_vector_store two_chunks points report_of_two ingests

reindexes : (reindex_tenant vector_store splitters locate (lit "acme") points).0 ≡ ok report
unfolding reindex_tenant is_tenant_id ingest_catalog load_and_split_catalog validate_catalog
    all_chunks entry_chunks numbered metadata_update metadata_set build_chunk_id decimal ingest
    chunks_by_document key_of metadata_str metadata_strs group_without group_at replace_documents
    replace_document replacement only_value metadata_get text_eq
reindexes = refl

held : points (lit "p1") ≡ some other_point
unfolding text_eq
held = refl

of_globex : metadata_get other_point.metadata (lit "tenant_id") ≡ some (text (lit "globex"))
unfolding metadata_get text_eq
of_globex = refl

not_acme : lit "globex" ≢ lit "acme"
not_acme = λ p. ground arith

fresh_id :
    (document_id : Text) (chunk_index : ℕ)
    → build_chunk_id splitters (lit "acme") document_id chunk_index ≢ lit "p1"
unfolding build_chunk_id
fresh_id = λ document_id chunk_index p. ground arith

reindex_tenant-isolated_example :
    (reindex_tenant vector_store splitters locate (lit "acme") points).1 (lit "p1")
    ≡ some other_point
reindex_tenant-isolated_example =
    reindex_tenant-isolated is_vector_store splitters locate (lit "acme") directory catalog points
      report (lit "p1") (lit "globex") other_point are_splitters refl refl reindexes held of_globex
      not_acme fresh_id

abbrev loaded_chunks : List Document
loaded_chunks = numbered splitters (lit "acme") (lit "faq") 0 (
    record {
      page_content = lit "hello";
      metadata =
          (lit "tenant_id", text (lit "acme"))
          ∷ (lit "document_id", text (lit "faq"))
          ∷ (lit "title", text (lit "FAQ"))
          ∷ (lit "source", text (lit "faq.md"))
          ∷ (lit "version", text (lit "1"))
          ∷ (lit "effective_date", text (lit "2026-01-01"))
          ∷ [];
    }
    ∷ [])

loads : load_and_split_catalog splitters directory ≡ ok loaded_chunks
unfolding load_and_split_catalog validate_catalog all_chunks entry_chunks numbered metadata_update
    metadata_set build_chunk_id decimal text_eq
loads = refl

ingest_catalog-returns_example :
    (r : IngestionResult) × ((ingest_catalog vector_store splitters directory points).0 ≡ ok r)
    × (r.chunk_count ≡ length loaded_chunks)
ingest_catalog-returns_example =
    ingest_catalog-returns vector_store splitters directory catalog loaded_chunks points is_up
      are_splitters refl loads

-- A catalog in the directory of one tenant that names another tenant replaces the points of the
-- tenant that it names.
abbrev acme_points : Text → Option Document
acme_points id = elim (text_eq id (lit "acme:faq:0")) [ true ↦ some chunk | false ↦ none ]

reindexes_other :
    (reindex_tenant vector_store splitters locate (lit "globex") acme_points).0 ≡ ok report
unfolding reindex_tenant is_tenant_id ingest_catalog load_and_split_catalog validate_catalog
    all_chunks entry_chunks numbered metadata_update metadata_set build_chunk_id decimal ingest
    chunks_by_document key_of metadata_str metadata_strs group_without group_at replace_documents
    replace_document replacement only_value metadata_get text_eq
reindexes_other = refl
