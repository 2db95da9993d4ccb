-- ===== src/Rag/Ingestion/Tenants.antt =====
-- An ingestion touches the points of one tenant only.
use mathlib.Core.Path.{subst}
use enterprise_support_agent.Base.{
  ℕ, true, false, Option, some, List, [], ◌∷◌, ◌≡◌, ◌≢◌, refl, arith, if◌then◌else◌, Result, ok,
  ◌>>=◌, All, All-append, Result-cases, inl, inr, ok-injective, >>=-eq-ok,
}
use enterprise_support_agent.Base.Text.{Text, lit, text_eq_iff}
use enterprise_support_agent.Domain.{Error}
use enterprise_support_agent.Rag.Context.{Document, text, metadata_get}
use enterprise_support_agent.Rag.Documents.{
  Splitters, IsSplitters, Directory, KnowledgeCatalog, build_chunk_id, load_and_split_catalog,
}
use enterprise_support_agent.Rag.Documents.Chunks.{IsChunk, load_and_split_catalog-IsChunk}
use enterprise_support_agent.Rag.Ingestion.{
  VectorStore, metadata_str, Key, key_of, key_is, Groups, group_without, group_at,
  chunks_by_document, ingest_catalog, reindex_tenant, IngestionResult,
}
use enterprise_support_agent.Rag.Ingestion.Groups.{IsGroups, chunks_by_document-IsGroups}
use enterprise_support_agent.Rag.Ingestion.Points.{
  IsVectorStore, chunk_id_is, latest, chunks_of, is_covered, uncovered,
}
use enterprise_support_agent.Rag.Ingestion.Points.Replaced.{ingest-reconciled}

module _ (P : Document → Type 0) where
  abbrev pub AllOf : Groups → Type 0
  AllOf [] = Unit
  AllOf ((key, chunks) ∷ groups) = All P chunks × AllOf groups

  group_without-AllOf :
      (key : Key) (groups : Groups) → AllOf groups → AllOf (group_without key groups)
  unfolding group_without
  group_without-AllOf key [] h = tt
  group_without-AllOf key ((k, chunks) ∷ groups) h =
      elim (key_is k key)
        as (λ b.
          AllOf (if b then group_without key groups else (k, chunks) ∷ group_without key groups)) [
            | true ↦ group_without-AllOf key groups h.1
            | false ↦ (h.0, group_without-AllOf key groups h.1)
          ]

  group_at-AllOf : (key : Key) (groups : Groups) → AllOf groups → All P (group_at key groups)
  unfolding group_at
  group_at-AllOf key [] h = tt
  group_at-AllOf key ((k, chunks) ∷ groups) h =
      elim (key_is k key) as (λ b. All P (if b then chunks else group_at key groups)) [
        | true ↦ h.0
        | false ↦ group_at-AllOf key groups h.1
      ]

  pub chunks_by_document-AllOf :
      (chunks : List Document) (groups : Groups)
      → chunks_by_document chunks ≡ ok groups
      → All P chunks
      → AllOf groups
  unfolding chunks_by_document
  chunks_by_document-AllOf [] groups h ps = subst AllOf (ok-injective [] groups h) tt
  chunks_by_document-AllOf (c ∷ cs) groups h ps =
      let (key, named, continued) =
        >>=-eq-ok (key_of c)
          (λ k. chunks_by_document cs >>= λ gs. ok ((k, c ∷ group_at k gs) ∷ group_without k gs))
          h in
      let (rest, grouped, put) =
        >>=-eq-ok (chunks_by_document cs)
          (λ gs. ok ((key, c ∷ group_at key gs) ∷ group_without key gs)) continued in
      let all_rest = chunks_by_document-AllOf cs rest grouped ps.1 in
      subst AllOf (ok-injective ((key, c ∷ group_at key rest) ∷ group_without key rest) groups put)
        ((ps.0, group_at-AllOf key rest all_rest), group_without-AllOf key rest all_rest)

module _ (S : Splitters) (tenant_id : Text) where
  key_of-tenant :
      (c : Document) (key : Key) → IsChunk S tenant_id c → key_of c ≡ ok key → key.0 ≡ tenant_id
  unfolding key_of metadata_str
  key_of-tenant c key (document_id, chunk_index, section, identified) h =
      ground (arith, section.0, section.1)

  is_covered-tenant :
      (groups : Groups) (other : Text) (d : Document)
      → IsGroups groups
      → AllOf (IsChunk S tenant_id) groups
      → metadata_get d.metadata (lit "tenant_id") ≡ some (text other)
      → other ≢ tenant_id
      → is_covered groups d ≡ false
  is_covered-tenant [] other d h cs owned ne = refl
  is_covered-tenant ((key, []) ∷ groups) other d h cs owned ne = absurd h
  is_covered-tenant ((key, c ∷ cs) ∷ groups) other d h all owned ne = ground (
    arith,
    text_eq_iff other key.0,
    key_of-tenant c key all.0.0 h.0.0,
    is_covered-tenant groups other d h.2 all.1 owned ne,
  )

  chunk_id_is-other :
      (id : Text) (c : Document)
      → IsChunk S tenant_id c
      → ((document_id : Text) (chunk_index : ℕ)
          → build_chunk_id S tenant_id document_id chunk_index ≢ id)
      → chunk_id_is id c ≡ false
  unfolding metadata_str
  chunk_id_is-other id c (document_id, chunk_index, section, identified) fresh = ground (
    arith,
    text_eq_iff (build_chunk_id S tenant_id document_id chunk_index) id,
    fresh document_id chunk_index,
  )

  latest-other :
      (id : Text) (cs : List Document) (before : Option Document)
      → All (IsChunk S tenant_id) cs
      → ((document_id : Text) (chunk_index : ℕ)
          → build_chunk_id S tenant_id document_id chunk_index ≢ id)
      → latest id cs before ≡ before
  latest-other id [] before all fresh = refl
  latest-other id (c ∷ cs) before all fresh =
      rw (chunk_id_is-other id c all.0 fresh) (latest-other id cs before all.1 fresh)

  chunks_of-All :
      (groups : Groups)
      → AllOf (IsChunk S tenant_id) groups
      → All (IsChunk S tenant_id) (chunks_of groups)
  chunks_of-All [] h = tt
  chunks_of-All ((key, cs) ∷ groups) h =
      All-append (IsChunk S tenant_id) cs (chunks_of groups) h.0 (chunks_of-All groups h.1)

-- A reindexing of a tenant that returns keeps each point of a document whose tenant is not the one
-- that the tenant's catalog names, unless the point's identifier is built from the catalog's.
pub reindex_tenant-isolated :
    {V : VectorStore} (I : IsVectorStore V) (S : Splitters) (locate : Text → Result Error Directory)
    (requested : Text) (dir : Directory) (catalog : KnowledgeCatalog) (s : V.Points)
    (r : IngestionResult) (id other : Text) (d : Document)
    → IsSplitters S
    → locate requested ≡ ok dir
    → dir.catalog ≡ ok catalog
    → (reindex_tenant V S locate requested s).0 ≡ ok r
    → I.points s id ≡ some d
    → metadata_get d.metadata (lit "tenant_id") ≡ some (text other)
    → other ≢ catalog.tenant_id
    → ((document_id : Text) (chunk_index : ℕ)
        → build_chunk_id S catalog.tenant_id document_id chunk_index ≢ id)
    → I.points (reindex_tenant V S locate requested s).1 id ≡ some d
unfolding reindex_tenant ingest_catalog
reindex_tenant-isolated {V} I S locate requested dir catalog s r id other d splits located parsed
      returned held tenant ne fresh =
    elim (Result-cases (load_and_split_catalog S dir)) [
      | inr (e, failed) ↦ absurd (ground arith)
      | inl (chunks, loaded) ↦
          let (groups, grouped, _, _, _, _, points) =
            ingest-reconciled I chunks s r (ground arith) in
          let are_chunks =
            load_and_split_catalog-IsChunk S dir catalog chunks splits parsed loaded in
          let owned =
            chunks_by_document-AllOf (IsChunk S catalog.tenant_id) chunks groups grouped
              are_chunks in
          let kept =
            latest-other S catalog.tenant_id id (chunks_of groups) (uncovered groups (some d))
              (chunks_of-All S catalog.tenant_id groups owned) fresh in
          let uncovered_d =
            is_covered-tenant S catalog.tenant_id groups other d
              (chunks_by_document-IsGroups chunks groups grouped) owned tenant ne in
          ground (arith, points id, kept, uncovered_d)
    ]
