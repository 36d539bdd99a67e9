-- ===== src/Autoscale.antt =====
-- gateway/autoscale/queueing.py and planner.py: the Erlang-C sizing and the scaling decision. Rates
-- and times are in 10^-9, every quotient is truncated to that; replica counts are plain.
mod Plan
mod Tests
use llm_inference.Base.{
  ℕ, zero, suc, ◌+◌, ◌-◌, ◌*◌, ◌/◌, min, max, Bool, true, false, ◌||◌, Option, none, some,
  if◌then◌else◌, leb, ltb,
}
use llm_inference.Load.{one}

-- The steps k, k + 1, … of the recursion.
unfoldable pub erlang_steps : ℕ → ℕ → ℕ → ℕ → ℕ
erlang_steps zero k a b = b
erlang_steps (suc n) k a b =
    let ab = (a * b) / one in erlang_steps n (k + 1) a ((ab * one) / (k * one + ab))

unfoldable pub erlang_b : ℕ → ℕ → ℕ
unfolding erlang_steps
erlang_b c a = erlang_steps c 1 a one

unfoldable pub erlang_c : ℕ → ℕ → ℕ
erlang_c c a =
    if leb a 0
    then 0
    else if leb (c * one) a
    then one
    else let b = erlang_b c a in let rho = a / c in (b * one) / (one - (rho * (one - b)) / one)

-- A time, or infinity.
pub data Wait : Type 0 where
  finite : ℕ → Wait
  infinite : Wait

unfoldable pub expected_wait_s : ℕ → ℕ → ℕ → Wait
unfolding erlang_c
expected_wait_s c lam mu =
    if leb mu 0 || leb lam 0
    then finite 0
    else let a = (lam * one) / mu in
      (if leb (c * one) a then infinite else finite ((erlang_c c a * one) / (c * mu - lam)))

abbrev pub within : Wait → ℕ → Bool
within (finite w) slo = leb w slo
within infinite slo = false

-- The loop `while c < max_replicas`, of which `n` rounds are left.
unfoldable pub climb : ℕ → ℕ → ℕ → ℕ → ℕ → ℕ → ℕ
climb zero c lam mu slo max_replicas = max_replicas
climb (suc n) c lam mu slo max_replicas =
    let rest = climb n (c + 1) lam mu slo max_replicas in
    if within (expected_wait_s c lam mu) slo then c else rest

unfoldable pub min_replicas_for_wait_slo : ℕ → ℕ → ℕ → ℕ → ℕ
unfolding climb
min_replicas_for_wait_slo lam mu slo max_replicas =
    let c = max 1 (((lam * one) / mu) / one + 1) in
    if leb lam 0 || leb mu 0 then 0 else climb (max_replicas - c) c lam mu slo max_replicas

pub record AutoscaleConfig : Type 0 where
  pub min_replicas : ℕ
  pub max_replicas : ℕ
  pub service_rate_per_replica_rps : ℕ
  pub target_wait_ms : ℕ
  pub target_utilization : ℕ
  pub scale_up_cooldown_s : ℕ
  pub scale_down_cooldown_s : ℕ
  pub max_scale_step : ℕ
  pub scale_down_deadband : ℕ

-- `none` is -infinity: there was no such step yet.
pub record ScalingSignal : Type 0 where
  pub offered_rps : ℕ
  pub current_replicas : ℕ
  pub now_s : ℕ
  pub last_scale_up_s : Option ℕ
  pub last_scale_down_s : Option ℕ

pub data Direction : Type 0 where
  up down hold : Direction

-- The text of the reason is left out.
pub record ScalingDecision : Type 0 where
  pub current_replicas : ℕ
  pub desired_replicas : ℕ
  pub direction : Direction
  pub slo_replicas : ℕ
  pub util_replicas : ℕ
  pub est_wait : Wait
  pub blocked_by_cooldown : Bool

-- `math.ceil((lam / mu) / target_util)`
unfoldable pub util_replicas : ℕ → ℕ → ℕ → ℕ
util_replicas lam mu target_util =
    if leb lam 0 || leb mu 0
    then 0
    else if leb target_util 0
    then 1
    else let q = (((lam * one) / mu) * one) / target_util in (q + (one - 1)) / one

-- `now - last < cooldown`
abbrev pub is_cooling : ℕ → Option ℕ → ℕ → Bool
is_cooling now none cooldown = false
is_cooling now (some last) cooldown = ltb now (last + cooldown)

unfoldable pub target_of : ScalingSignal → AutoscaleConfig → ℕ
target_of s cfg = max cfg.min_replicas (
    min cfg.max_replicas (
      max
        (min_replicas_for_wait_slo s.offered_rps cfg.service_rate_per_replica_rps
          (cfg.target_wait_ms / 1000) cfg.max_replicas)
        (util_replicas s.offered_rps cfg.service_rate_per_replica_rps cfg.target_utilization)))

-- The desired count, the direction, and whether a cooldown blocked the step.
unfoldable pub temper : ScalingSignal → AutoscaleConfig → ℕ → ℕ × Direction × Bool
temper s cfg target =
    let cur = s.current_replicas in
    if ltb cur target
    then (if is_cooling s.now_s s.last_scale_up_s cfg.scale_up_cooldown_s
        then (cur, hold, true)
        else (min target (cur + cfg.max_scale_step), up, false))
    else if leb (target + cfg.scale_down_deadband) cur
    then (if is_cooling s.now_s s.last_scale_down_s cfg.scale_down_cooldown_s
        then (cur, hold, true)
        else (max target (cur - cfg.max_scale_step), down, false))
    else (cur, hold, false)

unfoldable pub plan : ScalingSignal → AutoscaleConfig → ScalingDecision
plan s cfg =
    let mu = cfg.service_rate_per_replica_rps in
    let (desired, direction, blocked) = temper s cfg (target_of s cfg) in
    record {
      current_replicas = s.current_replicas;
      desired_replicas = desired;
      direction = direction;
      slo_replicas =
          min_replicas_for_wait_slo s.offered_rps mu (cfg.target_wait_ms / 1000) cfg.max_replicas;
      util_replicas = util_replicas s.offered_rps mu cfg.target_utilization;
      est_wait = expected_wait_s desired s.offered_rps mu;
      blocked_by_cooldown = blocked;
    }
