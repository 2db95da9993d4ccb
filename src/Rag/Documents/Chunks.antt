-- ===== src/Rag/Documents/Chunks.antt =====
-- Each chunk of a catalog names the catalog's tenant, its document and its own identifier.
use mathlib.Core.Path.{subst}
use enterprise_support_agent.Base.{
  ℕ, suc, Option, some, List, [], ◌∷◌, ◌++◌, ◌≡◌, refl, arith, map, ok, if◌then◌else◌, ap, ◌∙◌,
  ok-injective, All, All-append, ◌>>=◌, >>=-eq-ok,
}
use enterprise_support_agent.Base.Text.{Text, lit, text_eq, text_eq_iff}
use enterprise_support_agent.Rag.Context.{Document, Metadata, MetaValue, text, metadata_get}
use enterprise_support_agent.Rag.Documents.{
  KnowledgeDocumentEntry, KnowledgeCatalog, validate_catalog, Splitters, IsSplitters, Directory,
  with_metadata, source_or_raise, document_chunks, metadata_set, metadata_update, build_chunk_id,
  entry_metadata, chunk_metadata, numbered, entry_chunks, all_chunks, load_and_split_catalog,
}

metadata_get-metadata_set :
    (m : Metadata) (key : Text) (value : MetaValue) (other : Text)
    → metadata_get (metadata_set m (key, value)) other
      ≡ (if text_eq key other then some value else metadata_get m other)
unfolding metadata_get metadata_set
metadata_get-metadata_set [] key value other = refl
metadata_get-metadata_set ((k, v) ∷ m) key value other = ground (
  arith,
  text_eq_iff k key,
  text_eq_iff k other,
  text_eq_iff key other,
  metadata_get-metadata_set m key value other,
)

-- The value of `key` after an update by `items`, where it was `value` before.
abbrev after_update : List (Text × MetaValue) → Text → Option MetaValue → Option MetaValue
after_update [] key value = value
after_update ((k, v) ∷ items) key value =
    after_update items key (if text_eq k key then some v else value)

metadata_get-metadata_update :
    (m : Metadata) (items : List (Text × MetaValue)) (key : Text)
    → metadata_get (metadata_update m items) key ≡ after_update items key (metadata_get m key)
unfolding metadata_update
metadata_get-metadata_update m [] key = refl
metadata_get-metadata_update m ((k, v) ∷ items) key =
    metadata_get-metadata_update (metadata_set m (k, v)) items key
    ∙ ap (after_update items key) (metadata_get-metadata_set m k v key)

module _ (S : Splitters) (tenant_id : Text) where
  abbrev IsSection : Text → Metadata → Type 0
  IsSection document_id m =
      (metadata_get m (lit "tenant_id") ≡ some (text tenant_id))
      × (metadata_get m (lit "document_id") ≡ some (text document_id))

  -- The chunk names the tenant, a document, and an identifier that is built from these.
  abbrev pub IsChunk : Document → Type 0
  IsChunk c =
      (document_id : Text) × (chunk_index : ℕ) × IsSection document_id c.metadata
      × (metadata_get c.metadata (lit "chunk_id")
          ≡ some (text (build_chunk_id S tenant_id document_id chunk_index)))

  entry_metadata-IsSection :
      (entry : KnowledgeDocumentEntry) (m : Metadata)
      → IsSection entry.document_id (metadata_update m (entry_metadata S tenant_id entry))
  unfolding text_eq
  entry_metadata-IsSection entry m = (
    metadata_get-metadata_update m (entry_metadata S tenant_id entry) (lit "tenant_id"),
    metadata_get-metadata_update m (entry_metadata S tenant_id entry) (lit "document_id"),
  )

  sections-IsSection :
      (entry : KnowledgeDocumentEntry) (ds : List Document)
      → All
          (λ d. IsSection entry.document_id d.metadata)
          (map (with_metadata (entry_metadata S tenant_id entry)) ds)
  sections-IsSection entry [] = tt
  sections-IsSection entry (d ∷ ds) =
      (entry_metadata-IsSection entry d.metadata, sections-IsSection entry ds)

  chunk_metadata-IsChunk :
      (document_id : Text) (chunk_index : ℕ) (c : Document)
      → IsSection document_id c.metadata
      → IsChunk (with_metadata (chunk_metadata S tenant_id document_id chunk_index) c)
  unfolding text_eq
  chunk_metadata-IsChunk document_id chunk_index c h =
      let items = chunk_metadata S tenant_id document_id chunk_index in
      (
        document_id,
        chunk_index,
        (
          metadata_get-metadata_update c.metadata items (lit "tenant_id") ∙ h.0,
          metadata_get-metadata_update c.metadata items (lit "document_id") ∙ h.1,
        ),
        metadata_get-metadata_update c.metadata items (lit "chunk_id"),
      )

  numbered-IsChunk :
      (document_id : Text) (chunk_index : ℕ) (cs : List Document)
      → All (λ c. IsSection document_id c.metadata) cs
      → All IsChunk (numbered S tenant_id document_id chunk_index cs)
  unfolding numbered
  numbered-IsChunk document_id chunk_index [] h = tt
  numbered-IsChunk document_id chunk_index (c ∷ cs) h = (
    chunk_metadata-IsChunk document_id chunk_index c h.0,
    numbered-IsChunk document_id (suc chunk_index) cs h.1,
  )

  module _ (splits : IsSplitters S) (dir : Directory) where
    entry_chunks-IsChunk :
        (entry : KnowledgeDocumentEntry) (cs : List Document)
        → entry_chunks S dir tenant_id entry ≡ ok cs
        → All IsChunk cs
    unfolding entry_chunks
    entry_chunks-IsChunk entry cs h =
        let (markdown, read, cut) =
          >>=-eq-ok (source_or_raise (dir.source_text entry.source))
            (λ m. ok (document_chunks S tenant_id entry m)) h in
        subst (All IsChunk) (ok-injective (document_chunks S tenant_id entry markdown) cs cut) (
          numbered-IsChunk entry.document_id 0
            (S.split_documents
              (map (with_metadata (entry_metadata S tenant_id entry)) (S.split_text markdown)))
            (splits (IsSection entry.document_id)
              (map (with_metadata (entry_metadata S tenant_id entry)) (S.split_text markdown))
              (sections-IsSection entry (S.split_text markdown))))

    all_chunks-IsChunk :
        (entries : List KnowledgeDocumentEntry) (cs : List Document)
        → all_chunks S dir tenant_id entries ≡ ok cs
        → All IsChunk cs
    unfolding all_chunks
    all_chunks-IsChunk [] cs h = subst (All IsChunk) (ok-injective [] cs h) tt
    all_chunks-IsChunk (entry ∷ entries) cs h =
        let (first, cut, continued) =
          >>=-eq-ok (entry_chunks S dir tenant_id entry)
            (λ chunks. all_chunks S dir tenant_id entries >>= λ rest. ok (chunks ++ rest)) h in
        let (rest, followed, joined) =
          >>=-eq-ok (all_chunks S dir tenant_id entries) (λ rest. ok (first ++ rest)) continued in
        subst (All IsChunk) (ok-injective (first ++ rest) cs joined) (
          All-append IsChunk first rest (entry_chunks-IsChunk entry first cut)
            (all_chunks-IsChunk entries rest followed))

-- Every chunk of a catalog that loads has the metadata of the catalog's tenant, of a document, and
-- the identifier that is built from the two and from an index.
pub load_and_split_catalog-IsChunk :
    (S : Splitters) (dir : Directory) (catalog : KnowledgeCatalog) (cs : List Document)
    → IsSplitters S
    → dir.catalog ≡ ok catalog
    → load_and_split_catalog S dir ≡ ok cs
    → All (IsChunk S catalog.tenant_id) cs
unfolding load_and_split_catalog validate_catalog
load_and_split_catalog-IsChunk S dir catalog cs splits parsed h =
    all_chunks-IsChunk S catalog.tenant_id splits dir catalog.documents cs (ground arith)
