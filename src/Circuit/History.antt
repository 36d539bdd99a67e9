-- ===== src/Circuit/History.antt =====
-- gateway/circuit.py against the history of the reports.
use llm_inference.Base.{
  ℕ, suc, ◌+◌, ◌≤◌, ◌<◌, ◌≡◌, refl, ◌⊎◌, Option, none, some, List, [], ◌∷◌, arith, leb, true, ◌↔◌,
  ltb, ◌==◌, if◌then◌else◌, eq_iff,
}
use llm_inference.Base.Text.{Text, text_eq}
use llm_inference.Base.Dict
use llm_inference.Base.Dict.{get-set, get-remove, get_or-get, get_or-set}
use llm_inference.Circuit.{
  Breaker, State, closed, half_open, opened, init, state, allow, record_success, record_failure,
}

-- What the gateway reports of a backend; a history has the newest event first.
pub data Event : Type 0 where
  success : Text → Event
  failure : Text → ℕ → Event

unfoldable pub apply : Breaker → Event → Breaker
apply b (success id) = record_success b id
apply b (failure id now) = record_failure b id now

unfoldable pub run : Breaker → List Event → Breaker
unfolding apply
run b [] = b
run b (e ∷ h) = apply (run b h) e

-- Failures of a backend since its last success.
abbrev pub streak : Text → List Event → ℕ
streak id [] = 0
streak id (success j ∷ h) = if j == id then 0 else streak id h
streak id (failure j now ∷ h) = if j == id then suc (streak id h) else streak id h

-- When the backend last failed; 0 if it never did.
abbrev pub last_failure : Text → List Event → ℕ
last_failure id [] = 0
last_failure id (success j ∷ h) = last_failure id h
last_failure id (failure j now ∷ h) = if j == id then now else last_failure id h

abbrev pub state_spec : ℕ → ℕ → List Event → Text → ℕ → State
state_spec threshold cooldown h id now =
    if ltb (streak id h) threshold
    then closed
    else if leb (last_failure id h + cooldown) now
    then half_open
    else opened

-- What the breaker holds of one backend.
abbrev Tracked : ℕ → List Event → Text → Option ℕ → ℕ → Type 0
Tracked threshold h id none fails = (fails ≡ streak id h) × (fails < threshold)
Tracked threshold h id (some t) fails =
    (t ≡ last_failure id h) × (threshold ≤ streak id h) × (threshold ≤ fails)

record Tracks (threshold cooldown : ℕ) (h : List Event) (id : Text) (b : Breaker) : Type 0 where
  threshold_kept : b.fail_threshold ≡ threshold
  cooldown_kept : b.cooldown ≡ cooldown
  tracked : Tracked threshold h id (Dict.get id b.opened_at) (Dict.get_or id 0 b.fails)

module _ (threshold cooldown : ℕ) (id : Text) where
  Tracks-success :
      (h : List Event) (b : Breaker) (j : Text)
      → 0 < threshold
      → Tracks threshold cooldown h id b
      → Tracks threshold cooldown (success j ∷ h) id (record_success b j)
  unfolding record_success
  Tracks-success h b j pos t = record {
    threshold_kept = t.threshold_kept;
    cooldown_kept = t.cooldown_kept;
    tracked =
        ground
          (arith, eq_iff j id, get-remove j id b.opened_at, get_or-set j id 0 0 b.fails, t.tracked);
  }

  Tracks-failure :
      (h : List Event) (b : Breaker) (j : Text) (now : ℕ)
      → Tracks threshold cooldown h id b
      → Tracks threshold cooldown (failure j now ∷ h) id (record_failure b j now)
  unfolding record_failure state
  Tracks-failure h b j now t = ground (
    arith,
    eq_iff j id,
    get-set j id now b.opened_at,
    get_or-set j id (b.fail_threshold) 0 b.fails,
    get_or-set j id (Dict.get_or j 0 b.fails + 1) 0 b.fails,
    t.tracked,
  )

  Tracks-init : 0 < threshold → Tracks threshold cooldown [] id (init threshold cooldown)
  unfolding init Dict.get Dict.get_or
  Tracks-init pos = record { threshold_kept = refl; cooldown_kept = refl; tracked = (refl, pos) }

  run-Tracks :
      (h : List Event)
      → 0 < threshold
      → Tracks threshold cooldown h id (run (init threshold cooldown) h)
  unfolding run
  run-Tracks [] pos = Tracks-init pos
  run-Tracks (success j ∷ h) pos = Tracks-success h _ j pos (run-Tracks h pos)
  run-Tracks (failure j now ∷ h) pos = Tracks-failure h _ j now (run-Tracks h pos)

  Tracks-state :
      (h : List Event) (b : Breaker) (now : ℕ)
      → Tracks threshold cooldown h id b
      → state b id now ≡ state_spec threshold cooldown h id now
  unfolding state
  Tracks-state h b now t = ground (arith, t.tracked)

-- With a positive threshold, after any history of successes and failures of any backends, the state
-- of a backend at any time is decided by that backend's failures since its last success and by the
-- time of its last failure: closed below the threshold, else open for the cooldown and half-open
-- after it.
pub state-run :
    (threshold cooldown : ℕ) (h : List Event) (id : Text) (now : ℕ)
    → 0 < threshold
    → state (run (init threshold cooldown) h) id now ≡ state_spec threshold cooldown h id now
state-run threshold cooldown h id now pos =
    Tracks-state threshold cooldown id h _ now (run-Tracks threshold cooldown id h pos)

-- With a positive threshold, after any history, a request may be routed to a backend exactly if the
-- backend has failed fewer times than the threshold since its last success, or if the cooldown has
-- passed since its last failure.
pub allow-run :
    (threshold cooldown : ℕ) (h : List Event) (id : Text) (now : ℕ)
    → 0 < threshold
    → (allow (run (init threshold cooldown) h) id now ≡ true)
      ↔ ((streak id h < threshold) ⊎ (last_failure id h + cooldown ≤ now))
unfolding allow
allow-run threshold cooldown h id now pos =
    ground (arith, state-run threshold cooldown h id now pos)

-- With a positive threshold, after any history, one success closes the circuit of its backend at
-- every time, and leaves the state of every other backend as it was.
pub success-closes :
    (threshold cooldown : ℕ) (h : List Event) (id j : Text) (now : ℕ)
    → 0 < threshold
    → state (record_success (run (init threshold cooldown) h) id) j now
      ≡ (if id == j then closed else state (run (init threshold cooldown) h) j now)
unfolding state record_success
success-closes threshold cooldown h id j now pos =
    ground (arith, get-remove id j (run (init threshold cooldown) h).opened_at)
