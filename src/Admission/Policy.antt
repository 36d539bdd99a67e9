-- ===== src/Admission/Policy.antt =====
-- gateway/admission/policy.py: the conditions of a decision.
use llm_inference.Base.{ℕ, ◌*◌, ◌≤◌, ◌<◌, ◌≡◌, ◌↔◌, ◌⊎◌, arith, inr}
use llm_inference.Load.{one}
use llm_inference.Admission.{
  AdmissionConfig, admit, queue, tier_priority, FleetState, AdmissionRequest, fleet_pressure,
  admit_floor, retry_after, decide,
}

-- The pressure is a fraction of 1.
pub fleet_pressure-le :
    (fleet : FleetState) (cfg : AdmissionConfig) → fleet_pressure fleet cfg ≤ one
unfolding fleet_pressure
fleet_pressure-le fleet cfg = omega arith

-- A request is admitted exactly if it meets its deadline, and either the fleet is below the threshold
-- or the priority of its tier reaches the floor.
pub decide-admit :
    (req : AdmissionRequest) (fleet : FleetState) (cfg : AdmissionConfig)
    → ((decide req fleet cfg).action ≡ admit) ↔ (
        (req.est_ttft_ms ≤ cfg.ttft_slo_ms)
        × (fleet_pressure fleet cfg < cfg.shed_pressure
            ⊎ admit_floor (fleet_pressure fleet cfg) cfg ≤ tier_priority req.tier * one))
unfolding decide
decide-admit req fleet cfg = ground arith

-- Whoever is admitted at a tier is admitted at every tier with at least that priority, with any
-- estimate that is not larger.
pub decide_mono :
    (r s : AdmissionRequest) (fleet : FleetState) (cfg : AdmissionConfig)
    → tier_priority r.tier ≤ tier_priority s.tier
    → s.est_ttft_ms ≤ r.est_ttft_ms
    → (decide r fleet cfg).action ≡ admit
    → (decide s fleet cfg).action ≡ admit
unfolding decide
decide_mono r s fleet cfg le fast h = ground arith

-- A request is told to retry after a time within the configured maximum, and at once only if admitted;
-- it is queued only while the queue has room.
pub decide-bounds :
    (req : AdmissionRequest) (fleet : FleetState) (cfg : AdmissionConfig)
    → ((decide req fleet cfg).retry_after_ms ≤ cfg.retry_after_max_ms)
      × ((decide req fleet cfg).action ≡ queue
          → (fleet.queue_depth < cfg.max_queue_depth) × (req.est_ttft_ms ≤ cfg.ttft_slo_ms))
unfolding decide retry_after
decide-bounds req fleet cfg = ground arith

admit_floor-le : (pressure : ℕ) (cfg : AdmissionConfig) → admit_floor pressure cfg ≤ 3 * one
unfolding admit_floor
admit_floor-le pressure cfg = omega arith

-- The highest priority, 3, is never shed: with it, a request that meets its deadline is admitted, at
-- any pressure.
pub decide-gold :
    (req : AdmissionRequest) (fleet : FleetState) (cfg : AdmissionConfig)
    → 3 ≤ tier_priority req.tier
    → req.est_ttft_ms ≤ cfg.ttft_slo_ms
    → (decide req fleet cfg).action ≡ admit
decide-gold req fleet cfg high fast =
    (decide-admit req fleet cfg).1
      (fast, inr (let le = admit_floor-le (fleet_pressure fleet cfg) cfg in omega arith))
