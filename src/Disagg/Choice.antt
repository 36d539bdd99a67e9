-- ===== src/Disagg/Choice.antt =====
-- gateway/disagg/router.py: the cost of a decision against that of a single backend.
use mathlib.Core.Option.{some-injective, none-ne-some}
use llm_inference.Base.{
  ℕ, ◌≤◌, ◌≡◌, refl, sym, ap, some, List, [], ◌∷◌, arith, All, inl, inr, Option-cases,
}
use llm_inference.Base.Text.{Text, text_eq}
use llm_inference.Load.{LoadTracker}
use llm_inference.Affinity.{cheapest, best_of, or_all}
use llm_inference.Affinity.Choice.{cheapest-le}
use llm_inference.Disagg.{
  PoolRegistry, DisaggConfig, Request, DisaggDecision, prefill_ms, decode_ms, colocated_ms,
  coloc_pool, candidates, prefill_pool, decode_pool, decision, decide, choose_disaggregated,
}

-- A decision for a node that serves both phases and the best pair.
decide-le :
    (q : Request) (load : LoadTracker) (cfg : DisaggConfig) (pb db node : Text)
    → (decide q load cfg pb db (some node)).est_total_ms ≤ colocated_ms q load cfg node
unfolding decide decision
decide-le q load cfg pb db node = ground arith

All-trans :
    (f : Text → ℕ) (j k : ℕ) (bs : List Text)
    → j ≤ k
    → All (λ b. k ≤ f b) bs
    → All (λ b. j ≤ f b) bs
All-trans f j k [] le h = tt
All-trans f j k (b ∷ bs) le h = (omega (arith, h.0), All-trans f j k bs le h.1)

decide-All :
    (q : Request) (load : LoadTracker) (cfg : DisaggConfig) (pb db : Text) (cs : List Text) (k : ℕ)
    → k ≡ (decide q load cfg pb db (best_of (colocated_ms q load cfg) cs)).est_total_ms
    → All (λ b. k ≤ colocated_ms q load cfg b) cs
decide-All q load cfg pb db [] k e = tt
decide-All q load cfg pb db (c ∷ cs) k e =
    let est : Text → ℕ = colocated_ms q load cfg in
    let (le, all) = cheapest-le est c cs (est (cheapest est c cs)) refl in
    let bound = decide-le q load cfg pb db (cheapest est c cs) in
    (omega arith, All-trans est k (est (cheapest est c cs)) cs (omega arith) all)

-- A request that is routed at all, is routed at an estimated cost, handoff included, that is no higher
-- than serving it on any single candidate that has both phases.
pub choose_disaggregated-le :
    (q : Request) (pools : PoolRegistry) (load : LoadTracker) (cfg : DisaggConfig)
    (d : DisaggDecision)
    → choose_disaggregated q pools load cfg ≡ some d
    → All (λ b. d.est_total_ms ≤ colocated_ms q load cfg b) (coloc_pool pools load cfg)
unfolding choose_disaggregated
choose_disaggregated-le q pools load cfg d e =
    let ps = candidates (prefill_pool pools) load cfg in
    let ds = candidates (decode_pool pools) load cfg in
    elim (Option-cases (best_of (prefill_ms q load cfg) (or_all ps ds))) [
      | inl nowhere ↦ absurd (none-ne-some d (rw (nowhere, choose_disaggregated) at e))
      | inr (pb, is_pb) ↦ elim (Option-cases (best_of (decode_ms q load cfg) (or_all ds ps))) [
        | inl nowhere ↦ absurd (none-ne-some d (rw (is_pb, nowhere, choose_disaggregated) at e))
        | inr (db, is_db) ↦
            let e' = rw (is_pb, is_db, choose_disaggregated) at e in
            decide-All q load cfg pb db (coloc_pool pools load cfg) d.est_total_ms
              (ap (λ x. x.est_total_ms) (sym (some-injective _ _ e')))
      ]
    ]
