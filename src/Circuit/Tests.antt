-- ===== src/Circuit/Tests.antt =====
-- Concrete histories of the circuit breaker.
use llm_inference.Base.{
  ℕ, ◌≡◌, ◌↔◌, ◌⊎◌, ◌+◌, ◌<◌, ◌≤◌, true, List, [], ◌∷◌, arith, ◌==◌, if◌then◌else◌,
}
use llm_inference.Base.Text.{text_eq, text}
use llm_inference.Circuit.{opened, init, state}
use llm_inference.Circuit.History.{Event, success, failure, run, state-run}

abbrev flaps : List Event
flaps = failure (text "b0") 7 ∷ failure (text "b0") 6 ∷ success (text "b0") ∷ []

state-run_example : state (run (init 2 5) flaps) (text "b0") 9 ≡ opened
unfolding llm_inference.Base.list_beq
state-run_example = state-run 2 5 flaps (text "b0") 9 (omega arith)
