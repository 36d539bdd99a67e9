-- ===== src/Autoscale/Plan.antt =====
-- gateway/autoscale/planner.py and queueing.py: the range of a decision, and the sizing loop.
use llm_inference.Base.{
  ℕ, zero, suc, ◌+◌, ◌≤◌, ◌<◌, ◌≡◌, refl, true, false, ◌⊎◌, leb, arith, inl, inr, Bool-cases,
}
use llm_inference.Autoscale.{
  AutoscaleConfig, ScalingSignal, within, expected_wait_s, climb, target_of, temper, plan,
}

target_of-range :
    (s : ScalingSignal) (cfg : AutoscaleConfig)
    → cfg.min_replicas ≤ cfg.max_replicas
    → (cfg.min_replicas ≤ target_of s cfg) × (target_of s cfg ≤ cfg.max_replicas)
unfolding target_of
target_of-range s cfg h = omega arith

-- Starting within the fleet's bounds, a decision stays within them.
pub plan-range :
    (s : ScalingSignal) (cfg : AutoscaleConfig)
    → cfg.min_replicas ≤ cfg.max_replicas
    → cfg.min_replicas ≤ s.current_replicas
    → s.current_replicas ≤ cfg.max_replicas
    → (cfg.min_replicas ≤ (plan s cfg).desired_replicas)
      × ((plan s cfg).desired_replicas ≤ cfg.max_replicas)
unfolding plan temper
plan-range s cfg h lo hi = let (low, high) = target_of-range s cfg h in ground (arith, low, high)

-- The sizing loop returns the first count from its start `c` on that meets the goal, and the maximum
-- `m` if none below it does.
pub climb_least :
    (n c m lam mu slo : ℕ)
    → m ≡ c + n
    → (within (expected_wait_s (climb n c lam mu slo m) lam mu) slo ≡ true
        ⊎ climb n c lam mu slo m ≡ m)
      × (climb n c lam mu slo m ≤ m)
      × ((d : ℕ)
          → c ≤ d
          → d < climb n c lam mu slo m
          → within (expected_wait_s d lam mu) slo ≡ false)
unfolding climb
climb_least zero c m lam mu slo e = (inr refl, omega arith, λ d lo hi. absurd (omega arith))
climb_least (suc n) c m lam mu slo e = elim (Bool-cases (within (expected_wait_s c lam mu) slo)) [
  | inl meets ↦ rw (meets, climb) (inl meets, omega arith, λ d lo hi. absurd (omega arith))
  | inr fails ↦
      let rest = climb_least n (c + 1) m lam mu slo (omega arith) in
      rw (fails, climb)
        (
          rest.0,
          rest.1,
          λ d lo hi. elim (Bool-cases (leb d c)) [
            | inl here ↦ let same : d ≡ c = ground arith in rw same fails
            | inr later ↦ rest.2 d (ground arith) hi
          ],
        )
]
