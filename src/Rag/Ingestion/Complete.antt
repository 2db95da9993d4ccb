-- ===== src/Rag/Ingestion/Complete.antt =====
-- An ingestion of a catalog that loads returns, where the store's calls do.
use enterprise_support_agent.Base.{true, List, [], ◌∷◌, ◌≡◌, refl, arith, ok, All, all, length}
use enterprise_support_agent.Base.Text.{Text, lit, text_eq, text_eq_refl}
use enterprise_support_agent.Rag.Context.{Document}
use enterprise_support_agent.Rag.Documents.{
  Splitters, IsSplitters, Directory, KnowledgeCatalog, build_chunk_id, load_and_split_catalog,
}
use enterprise_support_agent.Rag.Documents.Chunks.{IsChunk, load_and_split_catalog-IsChunk}
use enterprise_support_agent.Rag.Ingestion.{
  VectorStore, metadata_str, metadata_strs, only_value, replacement, Key, key_of, Groups,
  chunks_by_document, group_at, group_without, replace_document, replace_documents, ingest,
  ingest_catalog, IngestionResult,
}
use enterprise_support_agent.Rag.Ingestion.Groups.{HaveKey, IsGroups, chunks_by_document-IsGroups}
use enterprise_support_agent.Rag.Ingestion.Tenants.{AllOf, chunks_by_document-AllOf}

-- No call of the store raises.
abbrev pub IsUp : VectorStore → Type 0
IsUp V =
    ((s : V.Points) (tenant_id document_id : Text) → (V.delete tenant_id document_id s).0 ≡ ok tt)
    × ((s : V.Points) (cs : List Document) (ids : List Text) → (V.add_documents cs ids s).0 ≡ ok tt)

metadata_strs-ok :
    (key : Text) (cs : List Document)
    → All (λ c. (v : Text) × (metadata_str key c ≡ ok v)) cs
    → (vs : List Text) × (metadata_strs key cs ≡ ok vs)
unfolding metadata_strs
metadata_strs-ok key [] h = ([], refl)
metadata_strs-ok key (c ∷ cs) ((v, first), h) =
    let (vs, rest) = metadata_strs-ok key cs h in (v ∷ vs, ground arith)

metadata_strs-same :
    (key value : Text) (cs : List Document)
    → All (λ c. metadata_str key c ≡ ok value) cs
    → (vs : List Text) × (metadata_strs key cs ≡ ok vs)
      × (all (λ other. text_eq other value) vs ≡ true)
unfolding metadata_strs
metadata_strs-same key value [] h = ([], refl, refl)
metadata_strs-same key value (c ∷ cs) (first, h) =
    let (vs, rest, same) = metadata_strs-same key value cs h in
    (value ∷ vs, ground arith, ground (arith, text_eq_refl value))

only_value-metadata_strs :
    (key value : Text) (c : Document) (cs : List Document)
    → All (λ c. metadata_str key c ≡ ok value) (c ∷ cs)
    → (vs : List Text) × (metadata_strs key (c ∷ cs) ≡ ok vs) × (only_value vs ≡ ok value)
unfolding metadata_strs only_value
only_value-metadata_strs key value c cs (first, h) =
    let (vs, rest, same) = metadata_strs-same key value cs h in
    (value ∷ vs, ground arith, ground arith)

HaveKey-tenant_id :
    (key : Key) (cs : List Document)
    → HaveKey key cs
    → All (λ c. metadata_str (lit "tenant_id") c ≡ ok key.0) cs
unfolding key_of
HaveKey-tenant_id key [] h = tt
HaveKey-tenant_id key (c ∷ cs) h = (ground (arith, h.0), HaveKey-tenant_id key cs h.1)

HaveKey-document_id :
    (key : Key) (cs : List Document)
    → HaveKey key cs
    → All (λ c. metadata_str (lit "document_id") c ≡ ok key.1) cs
unfolding key_of
HaveKey-document_id key [] h = tt
HaveKey-document_id key (c ∷ cs) h = (ground (arith, h.0), HaveKey-document_id key cs h.1)

module _ (S : Splitters) (tenant_id : Text) where
  chunk_ids :
      (cs : List Document)
      → All (IsChunk S tenant_id) cs
      → All (λ c. (v : Text) × (metadata_str (lit "chunk_id") c ≡ ok v)) cs
  unfolding metadata_str
  chunk_ids [] h = tt
  chunk_ids (c ∷ cs) ((document_id, chunk_index, section, identified), h) =
      ((build_chunk_id S tenant_id document_id chunk_index, ground arith), chunk_ids cs h)

  replacement-ok :
      (key : Key) (c : Document) (cs : List Document)
      → HaveKey key (c ∷ cs)
      → All (IsChunk S tenant_id) (c ∷ cs)
      → (ids : List Text) × (replacement (c ∷ cs) ≡ ok (key.0, key.1, ids))
  unfolding replacement
  replacement-ok key c cs named owned =
      let (ids, have_ids) = metadata_strs-ok (lit "chunk_id") (c ∷ cs) (chunk_ids (c ∷ cs) owned) in
      let (tenants, have_tenants, same_tenant) =
        only_value-metadata_strs (lit "tenant_id") key.0 c cs
          (HaveKey-tenant_id key (c ∷ cs) named) in
      let (documents, have_documents, same_document) =
        only_value-metadata_strs (lit "document_id") key.1 c cs
          (HaveKey-document_id key (c ∷ cs) named) in
      (ids, rw (have_tenants, have_documents, same_tenant, same_document, have_ids))

  key_of-ok : (c : Document) → IsChunk S tenant_id c → (key : Key) × (key_of c ≡ ok key)
  unfolding key_of metadata_str
  key_of-ok c (document_id, chunk_index, section, identified) =
      ((tenant_id, document_id), ground (arith, section.0, section.1))

  chunks_by_document-ok :
      (cs : List Document)
      → All (IsChunk S tenant_id) cs
      → (groups : Groups) × (chunks_by_document cs ≡ ok groups)
  unfolding chunks_by_document
  chunks_by_document-ok [] h = ([], refl)
  chunks_by_document-ok (c ∷ cs) h =
      let (key, named) = key_of-ok c h.0 in
      let (groups, grouped) = chunks_by_document-ok cs h.1 in
      ((key, c ∷ group_at key groups) ∷ group_without key groups, ground arith)

  module _ (V : VectorStore) (is_up : IsUp V) where
    replace_document-ok :
        (key : Key) (c : Document) (cs : List Document) (s : V.Points)
        → HaveKey key (c ∷ cs)
        → All (IsChunk S tenant_id) (c ∷ cs)
        → (replace_document V (c ∷ cs) s).0 ≡ ok tt
    unfolding replace_document
    replace_document-ok key c cs s named owned =
        let (ids, prepared) = replacement-ok key c cs named owned in
        ground (arith, is_up.0 s key.0 key.1, is_up.1 (V.delete key.0 key.1 s).1 (c ∷ cs) ids)

    replace_documents-ok :
        (groups : Groups) (s : V.Points)
        → IsGroups groups
        → AllOf (IsChunk S tenant_id) groups
        → (replace_documents V groups s).0 ≡ ok tt
    unfolding replace_documents
    replace_documents-ok [] s h owned = refl
    replace_documents-ok ((key, []) ∷ groups) s h owned = absurd h
    replace_documents-ok ((key, c ∷ cs) ∷ groups) s h owned =
        let s' = (replace_document V (c ∷ cs) s).1 in
        ground (
          arith,
          replace_document-ok key c cs s h.0 owned.0,
          replace_documents-ok groups s' h.2 owned.1,
        )

-- Where the calls of the store return, so does the ingestion of a catalog that loads: none of the
-- checks of `replace_document` fails. It reports the number of its chunks.
pub ingest_catalog-returns :
    (V : VectorStore) (S : Splitters) (dir : Directory) (catalog : KnowledgeCatalog)
    (chunks : List Document) (s : V.Points)
    → IsUp V
    → IsSplitters S
    → dir.catalog ≡ ok catalog
    → load_and_split_catalog S dir ≡ ok chunks
    → (r : IngestionResult) × ((ingest_catalog V S dir s).0 ≡ ok r)
      × (r.chunk_count ≡ length chunks)
unfolding ingest_catalog ingest
ingest_catalog-returns V S dir catalog chunks s is_up splits parsed loaded =
    let owned = load_and_split_catalog-IsChunk S dir catalog chunks splits parsed loaded in
    let (groups, grouped) = chunks_by_document-ok S catalog.tenant_id chunks owned in
    let done =
      replace_documents-ok S catalog.tenant_id V is_up groups s
        (chunks_by_document-IsGroups chunks groups grouped)
        (chunks_by_document-AllOf (IsChunk S catalog.tenant_id) chunks groups grouped owned) in
    (record { document_count = length groups; chunk_count = length chunks }, ground arith, refl)
