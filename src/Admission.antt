-- ===== src/Admission.antt =====
-- gateway/admission/policy.py: admit, queue or reject. Fractions are in 10^-9 (`one` is 1.0), times in
-- 10^-9 ms, and quotients are truncated to that.
mod Policy
mod Tests
use llm_inference.Base.{
  ℕ, zero, suc, ◌+◌, ◌-◌, ◌*◌, ◌/◌, min, max, Bool, true, false, ◌&&◌, List, [], ◌∷◌, ◌==◌,
  if◌then◌else◌, leb, ltb, length, filter,
}
use llm_inference.Base.Text.{Text, text_eq, text, lower}
use llm_inference.Base.Dict
use llm_inference.Base.Dict.{Dict}
use llm_inference.Load.{one}

pub record AdmissionConfig : Type 0 where
  pub ttft_slo_ms : ℕ
  pub max_inflight_per_backend : ℕ
  pub shed_pressure : ℕ
  pub queue_enabled : Bool
  pub max_queue_depth : ℕ
  pub retry_after_base_ms : ℕ
  pub retry_after_max_ms : ℕ

pub data Action : Type 0 where
  admit queue reject : Action

abbrev pub tiers : Dict Text ℕ
tiers = (text "gold", 3) ∷ (text "silver", 2) ∷ (text "bronze", 1) ∷ []

unfoldable pub tier_priority : Text → ℕ
tier_priority tier = Dict.get_or (lower tier) 0 tiers

pub record FleetState : Type 0 where
  pub backend_inflight : Dict Text ℕ
  pub backend_kv_usage : Dict Text ℕ
  pub queue_depth : ℕ

pub record AdmissionRequest : Type 0 where
  pub est_ttft_ms : ℕ
  pub tier : Text

-- The text of the reason is left out.
pub record AdmissionDecision : Type 0 where
  pub action : Action
  pub retry_after_ms : ℕ
  pub pressure : ℕ
  pub admit_floor : ℕ

unfoldable pub sum : List ℕ → ℕ
sum [] = 0
sum (x ∷ xs) = x + sum xs

-- `sum(xs) / len(xs) if xs else 0.0`
unfoldable pub mean : List ℕ → ℕ
mean [] = 0
mean (x ∷ xs) = sum (x ∷ xs) / length (x ∷ xs)

-- The fraction of the backends that are at or over the cap.
unfoldable pub sat_frac : ℕ → List ℕ → ℕ
sat_frac cap [] = 0
sat_frac cap (n ∷ ns) = (length (filter (λ m. leb cap m) (n ∷ ns)) * one) / length (n ∷ ns)

unfoldable pub fleet_pressure : FleetState → AdmissionConfig → ℕ
fleet_pressure fleet cfg = max 0 (
    min one (
      max (mean (Dict.values fleet.backend_kv_usage))
        (sat_frac cfg.max_inflight_per_backend (Dict.values fleet.backend_inflight))))

-- `1e-9` is 1; the difference below 0 is cut by the `max` of the source.
unfoldable pub admit_floor : ℕ → AdmissionConfig → ℕ
admit_floor pressure cfg =
    let span = max 1 (one - cfg.shed_pressure) in
    let t = min one (((pressure - cfg.shed_pressure) * one) / span) in one + 2 * t

unfoldable pub retry_after : ℕ → AdmissionConfig → ℕ → ℕ
retry_after pressure cfg overshoot_ms =
    min cfg.retry_after_max_ms
      (max ((cfg.retry_after_base_ms * (one + pressure)) / one) overshoot_ms)

unfoldable pub decide : AdmissionRequest → FleetState → AdmissionConfig → AdmissionDecision
decide req fleet cfg =
    let pressure = fleet_pressure fleet cfg in
    let floor = admit_floor pressure cfg in
    if ltb cfg.ttft_slo_ms req.est_ttft_ms
    then record {
      action = reject;
      retry_after_ms = retry_after pressure cfg (req.est_ttft_ms - cfg.ttft_slo_ms);
      pressure = pressure;
      admit_floor = 0;
    }
    else if ltb pressure cfg.shed_pressure
    then record { action = admit; retry_after_ms = 0; pressure = pressure; admit_floor = 0 }
    else if leb floor (tier_priority req.tier * one)
    then record { action = admit; retry_after_ms = 0; pressure = pressure; admit_floor = floor }
    else record {
      action =
          if cfg.queue_enabled && ltb fleet.queue_depth cfg.max_queue_depth then queue else reject;
      retry_after_ms = retry_after pressure cfg 0;
      pressure = pressure;
      admit_floor = floor;
    }
