-- ===== src/Admission/Tests.antt =====
-- Concrete admission decisions.
use llm_inference.Base.{◌≡◌, ◌↔◌, ◌⊎◌, ◌≤◌, ◌<◌, ◌*◌, true, [], ◌∷◌}
use llm_inference.Base.Text.{text}
use llm_inference.Load.{one}
use llm_inference.Admission.{
  AdmissionConfig, admit, tier_priority, FleetState, AdmissionRequest, fleet_pressure, admit_floor,
  decide,
}
use llm_inference.Admission.Policy.{decide-admit}

abbrev cfg : AdmissionConfig
cfg = record {
  ttft_slo_ms = 500;
  max_inflight_per_backend = 2;
  shed_pressure = 750000000;
  queue_enabled = true;
  max_queue_depth = 4;
  retry_after_base_ms = 200;
  retry_after_max_ms = 10000;
}

abbrev busy : FleetState
busy = record {
  backend_inflight = (text "b0", 3) ∷ (text "b1", 2) ∷ [];
  backend_kv_usage = (text "b0", 900000000) ∷ [];
  queue_depth = 1;
}

abbrev gold_request : AdmissionRequest
gold_request = record { est_ttft_ms = 300; tier = text "Gold" }

decide-admit_example : ((decide gold_request busy cfg).action ≡ admit) ↔ (
    (300 ≤ 500)
    × (fleet_pressure busy cfg < 750000000
        ⊎ admit_floor (fleet_pressure busy cfg) cfg ≤ tier_priority (text "Gold") * one))
decide-admit_example = decide-admit gold_request busy cfg
