-- ===== src/Rag/Collections.antt =====
-- `ensure_collection` of agent-service/src/agent_service/rag/vector_store.py. A collection is what
-- Qdrant says of its vectors; the client's calls are taken to return.
use enterprise_support_agent.Base.{
  ℕ, Bool, true, false, Option, none, some, ◌≡◌, refl, sym, ap, ◌∙◌, arith, if◌then◌else◌, ok, err,
  ◌==◌, not,
}
use enterprise_support_agent.Domain.{collection_error}
use enterprise_support_agent.Exec.{Exec}

pub record DenseConfig : Type 0 where
  pub size : ℕ
  pub is_cosine : Bool

-- The vectors: one without a name, or named ones, with the one that is named "dense".
pub data VectorsConfig : Type 0 where
  unnamed : VectorsConfig
  named : Option DenseConfig → VectorsConfig

-- `sparse` says of the sparse vector "bm25", if it is there, whether it has the modifier IDF.
pub record Collection : Type 0 where
  pub vectors : VectorsConfig
  pub sparse : Option Bool

abbrev hybrid_collection : ℕ → Collection
hybrid_collection vector_size = record {
  vectors = named (some (record { size = vector_size; is_cosine = true }));
  sparse = some true;
}

abbrev is_dense : ℕ → VectorsConfig → Bool
is_dense vector_size (named (some dense)) =
    if not (dense.size == vector_size) then false else dense.is_cosine
is_dense vector_size _ = false

abbrev is_idf : Option Bool → Bool
is_idf (some idf) = idf
is_idf none = false

-- The checks of a collection that exists; each raises the same exception.
unfoldable pub is_configured : ℕ → Collection → Bool
is_configured vector_size c = if is_dense vector_size c.vectors then is_idf c.sparse else false

-- `ensure_collection`, where the collection is `none` if it does not exist.
unfoldable pub ensure_collection : ℕ → Exec (Option Collection) (Unit {0})
ensure_collection vector_size none = (ok tt, some (hybrid_collection vector_size))
ensure_collection vector_size (some c) =
    if is_configured vector_size c then (ok tt, some c) else (err collection_error, some c)

is_configured-of_ok :
    (vector_size : ℕ) (c : Collection)
    → (ensure_collection vector_size (some c)).0 ≡ ok tt
    → is_configured vector_size c ≡ true
unfolding ensure_collection
is_configured-of_ok vector_size c h = ground arith

ensure_collection-of_configured :
    (vector_size : ℕ) (c : Collection)
    → is_configured vector_size c ≡ true
    → ensure_collection vector_size (some c) ≡ (ok tt, some c)
unfolding ensure_collection
ensure_collection-of_configured vector_size c good = ground arith

ensure_collection-keeps :
    (vector_size : ℕ) (c : Collection) → (ensure_collection vector_size (some c)).1 ≡ some c
unfolding ensure_collection
ensure_collection-keeps vector_size c = ground arith

-- After it returned, the collection has the dense vector of the size and the sparse one, and
-- ensuring it again returns and changes nothing.
pub ensure_collection-again :
    (vector_size : ℕ) (c : Option Collection)
    → (ensure_collection vector_size c).0 ≡ ok tt
    → let c' = (ensure_collection vector_size c).1 in
      ((d : Collection) × (c' ≡ some d) × (is_configured vector_size d ≡ true))
      × (ensure_collection vector_size c' ≡ (ok tt, c'))
unfolding ensure_collection is_configured
ensure_collection-again vector_size none h =
    ((hybrid_collection vector_size, refl, ground arith), ground arith)
ensure_collection-again vector_size (some c) h =
    let good = is_configured-of_ok vector_size c h in
    let returned = ensure_collection-of_configured vector_size c good in
    (
      (c, ensure_collection-keeps vector_size c, good),
      ap (ensure_collection vector_size) (ensure_collection-keeps vector_size c)
          ∙ returned
          ∙ ap (λ d. (ok tt, d)) (sym (ensure_collection-keeps vector_size c)),
    )
