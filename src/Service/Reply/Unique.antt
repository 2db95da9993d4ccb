-- ===== src/Service/Reply/Unique.antt =====
-- Numbered references have no number twice.
use enterprise_support_agent.Base.{
  ℕ, suc, ◌≤◌, ◌<◌, true, false, List, [], ◌∷◌, ◌≡◌, refl, arith, length, All, all, ap,
}
use enterprise_support_agent.Domain.{KnowledgeReference}
use enterprise_support_agent.Rag.Context.Numbering.{Numbered, HasTexts}
use enterprise_support_agent.Service.Reply.{is_source, contains, count_distinct, numbers}

not-contains :
    (k n : ℕ) (rs : List KnowledgeReference)
    → k < n
    → Numbered n rs
    → contains k (numbers rs) ≡ false
unfolding contains
not-contains k n [] lt h = refl
not-contains k n (r ∷ rs) lt h = ground (arith, not-contains k (suc n) rs (omega arith) h.1)

pub count_distinct-Numbered :
    (n : ℕ) (rs : List KnowledgeReference)
    → Numbered n rs
    → count_distinct (numbers rs) ≡ length (numbers rs)
unfolding count_distinct
count_distinct-Numbered n [] h = refl
count_distinct-Numbered n (r ∷ rs) h =
    rw (not-contains r.reference_number (suc n) rs (omega arith) h.1)
      (ap suc (count_distinct-Numbered (suc n) rs h.1))

pub all-is_source :
    (n : ℕ) (rs : List KnowledgeReference)
    → 1 ≤ n
    → Numbered n rs
    → All HasTexts rs
    → all is_source rs ≡ true
unfolding is_source
all-is_source n [] le h t = refl
all-is_source n (r ∷ rs) le h t = ground (arith, all-is_source (suc n) rs (omega arith) h.1 t.1)
