-- ===== src/Affinity/Choice.antt =====
-- gateway/rag/index.py and router.py: the size of the tables, and the estimate of the choice.
use llm_inference.Base.{
  ℕ, ◌≤◌, ◌≡◌, refl, some, List, [], ◌∷◌, ltb, length, nat_eq, ◌==◌, filter, list_cases, arith, All,
  inl, inr, Bool-cases,
}
use llm_inference.Base.Text.{Text, text_eq}
use llm_inference.Base.Dict.{get_or-set}
use llm_inference.Base.Lru.{evict, length-evict-le}
use llm_inference.Load.{LoadTracker}
use llm_inference.Affinity.{
  ChunkAffinityIndex, cache_of, use_all, record_ids, RagConfig, RagRouteResult, cost, eligible_of,
  cheapest, choose_rag_backend, result_of, or_all, has_room,
}

-- However many chunks are recorded, the table of no backend grows beyond the capacity, if none was
-- beyond it before.
pub length-record_ids-le :
    (b c : Text) (ids : List ℕ) (x : ChunkAffinityIndex)
    → length (cache_of x c) ≤ x.capacity
    → length (cache_of (record_ids b ids x) c) ≤ x.capacity
unfolding record_ids
length-record_ids-le b c ids x h = elim (Bool-cases (b == c)) [
  | inl same ↦
      rw (get_or-set b c (evict x.capacity (use_all ids (cache_of x b))) [] x.by_backend, same)
        (length-evict-le x.capacity (use_all ids (cache_of x b)))
  | inr other ↦
      rw (get_or-set b c (evict x.capacity (use_all ids (cache_of x b))) [] x.by_backend, other) h
]

pub cheapest-le :
    (est : Text → ℕ) (best : Text) (bs : List Text) (k : ℕ)
    → k ≡ est (cheapest est best bs)
    → (k ≤ est best) × All (λ b. k ≤ est b) bs
unfolding cheapest
cheapest-le est best [] k e = (omega arith, tt)
cheapest-le est best (b ∷ bs) k e = elim (Bool-cases (ltb (est b) (est best))) [
  | inl less ↦
      let (le, all) = cheapest-le est b bs k (rw (less, cheapest) at e) in
      (ground (arith, le, less), (le, all))
  | inr more ↦
      let (le, all) = cheapest-le est best bs k (rw (more, cheapest) at e) in
      (le, (ground (arith, le, more), all))
]

-- With a backend at all, a retrieval request is routed, and no eligible backend has a lower estimate
-- than the chosen one.
pub choose_rag_backend_lem :
    (ids : List ℕ) (b : Text) (bs : List Text) (x : ChunkAffinityIndex) (load : LoadTracker)
    (cfg : RagConfig)
    → (r : RagRouteResult) × (choose_rag_backend ids (b ∷ bs) x load cfg ≡ some r)
      × All (λ c. r.est_ms ≤ cost x load cfg ids c) (eligible_of load cfg (b ∷ bs))
unfolding choose_rag_backend eligible_of
choose_rag_backend_lem ids b bs x load cfg =
    elim (list_cases (filter (has_room load cfg) (b ∷ bs))) [
      | inl empty ↦
          let (le, all) = cheapest-le (cost x load cfg ids) b bs _ refl in
          (
            result_of ids x load cfg (cheapest (cost x load cfg ids) b bs),
            rw (empty, or_all, choose_rag_backend) refl,
            rw (empty, or_all) (le, all),
          )
      | inr (c, cs, some_room) ↦
          let (le, all) = cheapest-le (cost x load cfg ids) c cs _ refl in
          (
            result_of ids x load cfg (cheapest (cost x load cfg ids) c cs),
            rw (some_room, or_all, choose_rag_backend) refl,
            rw (some_room, or_all) (le, all),
          )
    ]
