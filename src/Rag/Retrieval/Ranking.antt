-- ===== src/Rag/Retrieval/Ranking.antt =====
-- What a retrieval gives back.
use enterprise_support_agent.Base.{
  ℕ, zero, suc, ◌≤◌, Bool, true, false, Option, none, some, List, [], ◌∷◌, ◌≡◌, refl, arith, take,
  length, All, All-take, length-take, is_empty, if◌then◌else◌, Result, ok, err, leb, Bool-cases,
  inl, inr, ok-injective, >>=-eq-ok,
}
use enterprise_support_agent.Base.Text.{Text, strip}
use enterprise_support_agent.Domain.{Error, value_error}
use enterprise_support_agent.Rag.Context.{Document}
use enterprise_support_agent.Rag.Retrieval.{
  RagAvailabilityStatus, up, RetrievedChunk, KnowledgeRetriever, SearchError, candidates_of,
  rescored, insert, sort, ranked, retrieve, contents, found, response_handling, unexpected_response,
  is_knowledge_store_unavailable_error,
}

module _ {Score : Type 0} (ge : Score → Score → Bool) where
  -- No score is below the next.
  abbrev pub IsRanked : List (RetrievedChunk Score) → Type 0
  IsRanked [] = Unit
  IsRanked (c ∷ []) = Unit
  IsRanked (c ∷ d ∷ ds) = (ge c.score d.score ≡ true) × IsRanked (d ∷ ds)

  module _ (total : (a b : Score) → ge a b ≡ false → ge b a ≡ true) where
    insert-IsRanked :
        (c : RetrievedChunk Score) (cs : List (RetrievedChunk Score))
        → IsRanked cs
        → IsRanked (insert ge c cs)
    unfolding insert
    insert-IsRanked c [] h = tt
    insert-IsRanked c (d ∷ []) h = ground (arith, total c.score d.score)
    insert-IsRanked c (d ∷ e ∷ es) h =
        ground (arith, total c.score d.score, insert-IsRanked c (e ∷ es) h.1)

    sort-IsRanked : (cs : List (RetrievedChunk Score)) → IsRanked (sort ge cs)
    unfolding sort
    sort-IsRanked [] = tt
    sort-IsRanked (c ∷ cs) = insert-IsRanked c (sort ge cs) (sort-IsRanked cs)

  take-IsRanked : (n : ℕ) (cs : List (RetrievedChunk Score)) → IsRanked cs → IsRanked (take n cs)
  take-IsRanked zero cs h = tt
  take-IsRanked (suc n) [] h = tt
  take-IsRanked (suc zero) (c ∷ []) h = tt
  take-IsRanked (suc (suc n)) (c ∷ []) h = tt
  take-IsRanked (suc zero) (c ∷ d ∷ ds) h = tt
  take-IsRanked (suc (suc n)) (c ∷ d ∷ ds) h = (h.0, take-IsRanked (suc n) (d ∷ ds) h.1)

  module _ (P : Document → Type 0) where
    abbrev pub Of : RetrievedChunk Score → Type 0
    Of c = P c.document

    abbrev pub AreOf : List (Document × Score) → Type 0
    AreOf [] = Unit
    AreOf ((d, s) ∷ results) = P d × AreOf results

    abbrev pub Found : Result SearchError (List (Document × Score)) → Type 0
    Found (err e) = Unit
    Found (ok results) = AreOf results

    insert-Of :
        (c : RetrievedChunk Score) (cs : List (RetrievedChunk Score))
        → Of c
        → All Of cs
        → All Of (insert ge c cs)
    unfolding insert
    insert-Of c [] h hs = (h, tt)
    insert-Of c (d ∷ ds) h hs = ground (arith, insert-Of c ds h hs.1)

    sort-Of : (cs : List (RetrievedChunk Score)) → All Of cs → All Of (sort ge cs)
    unfolding sort
    sort-Of [] h = tt
    sort-Of (c ∷ cs) h = insert-Of c (sort ge cs) h.0 (sort-Of cs h.1)

    candidates-Of :
        (results : List (Document × Score)) → AreOf results → All Of (candidates_of ge results)
    candidates-Of [] h = tt
    candidates-Of ((d, s) ∷ results) h = (h.0, candidates-Of results h.1)

    rescored-Of :
        (cs : List (RetrievedChunk Score)) (ss : List Score) (out : List (RetrievedChunk Score))
        → All Of cs
        → rescored ge cs ss ≡ ok out
        → All Of out
    unfolding rescored
    rescored-Of [] [] out h e = rw (← ok-injective [] out e) tt
    rescored-Of [] (s ∷ ss) out h e = cc
    rescored-Of (c ∷ cs) [] out h e = cc
    rescored-Of (c ∷ cs) (s ∷ ss) out h e =
        let (rest, got, last) = >>=-eq-ok (rescored ge cs ss) _ e in
        rw (← ok-injective _ out last) (h.0, rescored-Of cs ss rest h.1 got)

    take-Of :
        (n : ℕ) (cs : List (RetrievedChunk Score))
        → All Of cs
        → All Of (take n cs) × (length (take n cs) ≤ n)
    take-Of n cs h = (All-take Of n cs h, omega (arith, length-take n cs))

    -- With a reranker, no score is below the next.
    abbrev pub RankedIf :
        Option (Text → List Text → Result Error (List Score)) → List (RetrievedChunk Score) → Type 0
    RankedIf none out = Unit
    RankedIf (some score) out = IsRanked out

    ranked-Of :
        (total : (a b : Score) → ge a b ≡ false → ge b a ≡ true) (top_k : ℕ)
        (reranker : Option (Text → List Text → Result Error (List Score))) (question : Text)
        (cs out : List (RetrievedChunk Score))
        → All Of cs
        → ranked ge top_k reranker question cs ≡ ok out
        → All Of out × (length out ≤ top_k) × RankedIf reranker out
    unfolding ranked
    ranked-Of total top_k none question cs out h e =
        let (fits, short) = take-Of top_k cs h in rw (← ok-injective _ out e) (fits, short, tt)
    ranked-Of total top_k (some score) question [] out h e =
        rw (← ok-injective _ out e) (tt, omega arith, tt)
    ranked-Of total top_k (some score) question (c ∷ cs) out h e =
        let (scores, got, rest) = >>=-eq-ok (score question (contents ge (c ∷ cs))) _ e in
        let (chunks, paired, last) = >>=-eq-ok (rescored ge (c ∷ cs) scores) _ rest in
        let (fits, short) =
          take-Of top_k (sort ge chunks)
            (sort-Of chunks (rescored-Of (c ∷ cs) scores chunks h paired)) in
        rw (← ok-injective _ out last)
          (fits, short, take-IsRanked top_k (sort ge chunks) (sort-IsRanked total chunks))

    -- What is shown of a result that returns `out`.
    abbrev pub Retrieved :
        KnowledgeRetriever Score → List (RetrievedChunk Score) → RagAvailabilityStatus → Type 0
    Retrieved r out status =
        All Of out × (length out ≤ r.top_k) × RankedIf r.reranker out × (status ≡ up)

    found-Of :
        (total : (a b : Score) → ge a b ≡ false → ge b a ≡ true) (r : KnowledgeRetriever Score)
        (question : Text) (results : Result SearchError (List (Document × Score)))
        (status : RagAvailabilityStatus) (out : List (RetrievedChunk Score))
        → Found results
        → (found ge r question results status).0 ≡ ok out
        → Retrieved r out (found ge r question results status).1
    unfolding is_knowledge_store_unavailable_error
    found-Of total r question (err response_handling) status out h e = cc
    found-Of total r question (err (unexpected_response none)) status out h e = cc
    found-Of total r question (err (unexpected_response (some n))) status out h e =
        elim (Bool-cases (leb 500 n)) [
          | inl down ↦ absurd (ground arith)
          | inr raised ↦ absurd (ground arith)
        ]
    found-Of total r question (ok results) status out h e =
        let (fits, short, in_order) =
          ranked-Of total r.top_k r.reranker question (candidates_of ge results) out
            (candidates-Of results h) e in
        (fits, short, in_order, refl)

    guarded :
        (r : KnowledgeRetriever Score) (out : List (RetrievedChunk Score)) (a b : Bool) (x : Error)
        (status : RagAvailabilityStatus)
        (y : Result Error (List (RetrievedChunk Score)) × RagAvailabilityStatus)
        → (y.0 ≡ ok out → Retrieved r out y.1)
        → (if a then (err x, status) else if b then (err x, status) else y).0 ≡ ok out
        → Retrieved r out (if a then (err x, status) else if b then (err x, status) else y).1
    guarded r out true b x status y h e = cc
    guarded r out false true x status y h e = cc
    guarded r out false false x status y h e = h e

    -- A retrieval that returns gives at most `top_k` chunks, each of which the store found in its
    -- search for the stripped question with the stripped tenant as the filter, with a reranker in
    -- the order of their scores, and notes the store as up.
    pub retrieve-Of :
        (total : (a b : Score) → ge a b ≡ false → ge b a ≡ true) (r : KnowledgeRetriever Score)
        (question tenant_id : Text) (status : RagAvailabilityStatus)
        (out : List (RetrievedChunk Score))
        → Found (r.search (strip question) r.candidate_k (strip tenant_id))
        → (retrieve ge r question tenant_id status).0 ≡ ok out
        → Retrieved r out (retrieve ge r question tenant_id status).1
    unfolding retrieve
    retrieve-Of total r question tenant_id status out h e =
        let results = r.search (strip question) r.candidate_k (strip tenant_id) in
        guarded r out (is_empty (strip question)) (is_empty (strip tenant_id)) value_error status
          (found ge r (strip question) results status)
          (found-Of total r (strip question) results status out h) e
