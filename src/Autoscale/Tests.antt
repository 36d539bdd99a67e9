-- ===== src/Autoscale/Tests.antt =====
-- Concrete scaling decisions.
use llm_inference.Base.{◌⊎◌}
use llm_inference.Base.{ℕ, ◌≡◌, ◌⊎◌, ◌≤◌, ◌<◌, true, false, none, some, arith}
use llm_inference.Autoscale.{AutoscaleConfig, ScalingSignal, within, expected_wait_s, climb}
use llm_inference.Autoscale.Plan.{climb_least}

abbrev cfg : AutoscaleConfig
cfg = record {
  min_replicas = 1;
  max_replicas = 20;
  service_rate_per_replica_rps = 5000000000;
  target_wait_ms = 100000000000;
  target_utilization = 700000000;
  scale_up_cooldown_s = 30;
  scale_down_cooldown_s = 300;
  max_scale_step = 4;
  scale_down_deadband = 1;
}

abbrev signal : ScalingSignal
signal = record {
  offered_rps = 40000000000;
  current_replicas = 3;
  now_s = 100;
  last_scale_up_s = some 10;
  last_scale_down_s = none;
}

climb_least_example :
    (within
          (expected_wait_s (climb 11 9 40000000000 5000000000 100000000 20) 40000000000 5000000000)
          100000000
        ≡ true
      ⊎ climb 11 9 40000000000 5000000000 100000000 20 ≡ 20)
    × (climb 11 9 40000000000 5000000000 100000000 20 ≤ 20)
    × ((d : ℕ)
        → 9 ≤ d
        → d < climb 11 9 40000000000 5000000000 100000000 20
        → within (expected_wait_s d 40000000000 5000000000) 100000000 ≡ false)
climb_least_example = climb_least 11 9 20 40000000000 5000000000 100000000 (omega arith)
