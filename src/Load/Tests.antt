-- ===== src/Load/Tests.antt =====
-- Concrete reports.
use llm_inference.Base.{ℕ, ◌≡◌, ◌≤◌, ◌+◌, List, [], ◌∷◌, arith}
use llm_inference.Base.Text.{text_eq, text}
use llm_inference.Load.{inflight_of, tokens_of}
use llm_inference.Load.Counters.{
  Report, dispatched, completed, run, started, finished, started_tokens, finished_tokens, IsOrderly,
  counters-run,
}

abbrev reports : List Report
reports = completed (text "b0") 16 ∷ dispatched (text "b1") 5 ∷ dispatched (text "b0") 16 ∷ []

reports-IsOrderly : IsOrderly (text "b0") reports
unfolding llm_inference.Base.list_beq
reports-IsOrderly =
    (omega arith, omega arith, (omega arith, omega arith, (omega arith, omega arith, tt)))

counters-run_example :
    (inflight_of (run reports) (text "b0") + finished (text "b0") reports
      ≡ started (text "b0") reports)
    × (tokens_of (run reports) (text "b0") + finished_tokens (text "b0") reports
        ≡ started_tokens (text "b0") reports)
counters-run_example = counters-run (text "b0") reports reports-IsOrderly
