-- ===== src/Rag/Ingestion/Points/Replaced.antt =====
-- An ingestion that returns leaves the points that `reconciled` describes.
use enterprise_support_agent.Base.{
  true, false, Option, none, some, List, [], ◌∷◌, ◌++◌, ◌≡◌, refl, sym, ap, ◌∙◌, arith,
  if◌then◌else◌, Bool-cases, ok, Result-cases, inl, inr, length,
}
use enterprise_support_agent.Base.Text.{Text, lit, text_eq, text_eq_iff}
use enterprise_support_agent.Rag.Context.{Document, MetaValue, text, number, metadata_get}
use enterprise_support_agent.Rag.Ingestion.{
  VectorStore, str_of, metadata_str, metadata_strs, only_value, replacement, Key, key_of, Groups,
  chunks_by_document, then_add, replace_document, replace_documents, ingest, IngestionResult,
}
use enterprise_support_agent.Rag.Ingestion.Groups.{
  has_key, HaveKey, IsGroups, key_is_refl, chunks_by_document-IsGroups,
}
use enterprise_support_agent.Rag.Ingestion.Grouping.{
  chunks_at, chunks_under, chunks_under-chunks_by_document,
}
use enterprise_support_agent.Rag.Ingestion.Points.{
  match_value, matches, without, added, IsVectorStore, chunk_id_is, latest, chunks_of, is_covered,
  uncovered, reconciled,
}

str_of-match_value :
    (v : Option MetaValue) (value : Text) → match_value v value ≡ true → str_of v ≡ ok value
str_of-match_value none value h = cc
str_of-match_value (some (text s)) value h = ground (arith, text_eq_iff s value)
str_of-match_value (some (number n)) value h = cc

matches-key_of : (key : Key) (c : Document) → matches key c ≡ true → key_of c ≡ ok key
unfolding key_of metadata_str
matches-key_of (t, d) c h = ground (
  arith,
  str_of-match_value (metadata_get c.metadata (lit "tenant_id")) t,
  str_of-match_value (metadata_get c.metadata (lit "document_id")) d,
)

is_covered-other :
    (groups : Groups) (key : Key) (c : Document)
    → key_of c ≡ ok key
    → has_key key groups ≡ false
    → is_covered groups c ≡ false
is_covered-other [] key c named h = refl
is_covered-other ((k, chunks) ∷ groups) key c named h = elim (Bool-cases (matches k c)) [
  | inr differs ↦ ground (arith, is_covered-other groups key c named)
  | inl same ↦ absurd (ground (arith, key_is_refl key, matches-key_of k c same))
]

added-latest :
    (id : Text) (cs : List Document) (ids : List Text) (before : Option Document)
    → metadata_strs (lit "chunk_id") cs ≡ ok ids
    → added id cs ids before ≡ latest id cs before
unfolding metadata_strs
added-latest id [] ids before h = refl
added-latest id (c ∷ cs) [] before h = ground arith
added-latest id (c ∷ cs) (i ∷ ids) before h =
    ground (arith, added-latest id cs ids (if text_eq i id then some c else before))

latest-append :
    (id : Text) (cs ds : List Document) (before : Option Document)
    → latest id (cs ++ ds) before ≡ latest id ds (latest id cs before)
latest-append id [] ds before = refl
latest-append id (c ∷ cs) ds before =
    latest-append id cs ds (if chunk_id_is id c then some c else before)

uncovered-latest :
    (groups : Groups) (id : Text) (key : Key) (cs : List Document) (before : Option Document)
    → HaveKey key cs
    → has_key key groups ≡ false
    → uncovered groups (latest id cs before) ≡ latest id cs (uncovered groups before)
uncovered-latest groups id key [] before named h = refl
uncovered-latest groups id key (c ∷ cs) before named h =
    uncovered-latest groups id key cs (if chunk_id_is id c then some c else before) named.1 h
    ∙ ap (latest id cs) (ground (arith, is_covered-other groups key c named.0 h))

uncovered-without :
    (groups : Groups) (key : Key) (cs : List Document) (before : Option Document)
    → uncovered groups (without key before) ≡ uncovered ((key, cs) ∷ groups) before
uncovered-without groups key cs before = ground arith

reconciled-append :
    (groups : Groups) (id : Text) (key : Key) (cs : List Document) (before : Option Document)
    → HaveKey key cs
    → has_key key groups ≡ false
    → reconciled groups id (latest id cs (without key before))
      ≡ reconciled ((key, cs) ∷ groups) id before
reconciled-append groups id key cs before named h =
    ap (latest id (chunks_of groups)) (
      uncovered-latest groups id key cs (without key before) named h
      ∙ ap (latest id cs) (uncovered-without groups key cs before))
    ∙ sym (latest-append id cs (chunks_of groups) (uncovered ((key, cs) ∷ groups) before))

replacement-HaveKey :
    (key : Key) (c : Document) (cs : List Document) (tenant_id document_id : Text) (ids : List Text)
    → HaveKey key (c ∷ cs)
    → replacement (c ∷ cs) ≡ ok (tenant_id, document_id, ids)
    → (tenant_id ≡ key.0)
      × (document_id ≡ key.1)
      × (metadata_strs (lit "chunk_id") (c ∷ cs) ≡ ok ids)
unfolding replacement only_value key_of metadata_strs
replacement-HaveKey key c cs tenant_id document_id ids named h = ground arith

module _ {V : VectorStore} (I : IsVectorStore V) where
  then_add-points :
      (key : Key) (cs : List Document) (ids : List Text) (s : V.Points) (id : Text)
      → (then_add V cs ids (V.delete key.0 key.1 s)).0 ≡ ok tt
      → I.points (then_add V cs ids (V.delete key.0 key.1 s)).1 id
        ≡ added id cs ids (without key (I.points s id))
  then_add-points key cs ids s id h = elim (Result-cases (V.delete key.0 key.1 s).0) [
    | inr (e, failed) ↦ absurd (ground arith)
    | inl (_, deleted) ↦
        ground (arith, I.points-delete s key id, I.points-add (V.delete key.0 key.1 s).1 cs ids id)
  ]

  replace_document-points :
      (key : Key) (c : Document) (cs : List Document) (s : V.Points) (id : Text)
      → HaveKey key (c ∷ cs)
      → (replace_document V (c ∷ cs) s).0 ≡ ok tt
      → I.points (replace_document V (c ∷ cs) s).1 id
        ≡ latest id (c ∷ cs) (without key (I.points s id))
  unfolding replace_document
  replace_document-points key c cs s id named h = elim (Result-cases (replacement (c ∷ cs))) [
    | inr (e, refused) ↦ absurd (ground arith)
    | inl ((tenant_id, document_id, ids), prepared) ↦
        let (tenant, document, named_ids) =
          replacement-HaveKey key c cs tenant_id document_id ids named prepared in
        ground (
          arith,
          then_add-points key (c ∷ cs) ids s id,
          added-latest id (c ∷ cs) ids (without key (I.points s id)),
        )
  ]

  pub replace_documents-points :
      (groups : Groups) (s : V.Points) (id : Text)
      → IsGroups groups
      → (replace_documents V groups s).0 ≡ ok tt
      → I.points (replace_documents V groups s).1 id ≡ reconciled groups id (I.points s id)
  unfolding replace_documents
  replace_documents-points [] s id h returned = ground arith
  replace_documents-points ((key, []) ∷ groups) s id h returned = absurd h
  replace_documents-points ((key, c ∷ cs) ∷ groups) s id h returned =
      elim (Result-cases (replace_document V (c ∷ cs) s).0) [
        | inr (e, failed) ↦ absurd (ground arith)
        | inl (_, replaced) ↦
            let s' = (replace_document V (c ∷ cs) s).1 in
            let rest : I.points (replace_documents V groups s').1 id
                ≡ reconciled groups id (I.points s' id) =
              replace_documents-points groups s' id h.2 (ground arith) in
            let first = replace_document-points key c cs s id h.0 replaced in
            let merged = reconciled-append groups id key (c ∷ cs) (I.points s id) h.0 h.1 in
            ground arith
      ]

-- An ingestion that returns has put its chunks into groups: no group is empty, the chunks of a group
-- have its tenant and document, no two groups have the same, and each key's group holds all chunks
-- with this tenant and document, in their order. It leaves under each identifier the last chunk of
-- the groups with this identifier, or else what was there, unless that belongs to a document of the
-- groups; what it returns counts the groups and the chunks.
pub ingest-reconciled :
    {V : VectorStore} (I : IsVectorStore V) (chunks : List Document) (s : V.Points)
    (r : IngestionResult)
    → (ingest V chunks s).0 ≡ ok r
    → (groups : Groups) × (chunks_by_document chunks ≡ ok groups)
      × IsGroups groups
      × ((key : Key) → chunks_under key groups ≡ chunks_at key chunks)
      × (r.document_count ≡ length groups)
      × (r.chunk_count ≡ length chunks)
      × ((id : Text) → I.points (ingest V chunks s).1 id ≡ reconciled groups id (I.points s id))
unfolding ingest
ingest-reconciled {V} I chunks s r returned = elim (Result-cases (chunks_by_document chunks)) [
  | inr (e, failed) ↦ absurd (ground arith)
  | inl (groups, grouped) ↦
      let is_groups = chunks_by_document-IsGroups chunks groups grouped in
      (
        groups,
        grouped,
        is_groups,
        λ key. chunks_under-chunks_by_document key chunks groups grouped,
        ground arith,
        ground arith,
        λ id. ground (arith, replace_documents-points I groups s id is_groups),
      )
]
