-- ===== src/Fair/Tests.antt =====
-- A concrete run of the dispatch gate.
use llm_inference.Base.{[], ◌∷◌}
use llm_inference.Base.Text.{text}
use llm_inference.Fair.Sched.{init}
use llm_inference.Fair.Slots.{IsFair, acquires, releases, cancels, run, run-IsFair}

run-IsFair_example : IsFair (
    run
      (acquires (text "gold")
        ∷ acquires (text "bronze")
        ∷ acquires (text "gold")
        ∷ cancels 0
        ∷ releases
        ∷ [])
      (init 1 [] 1000000000 1000000000))
run-IsFair_example = run-IsFair 1 [] 1000000000 1000000000 (
    acquires (text "gold")
    ∷ acquires (text "bronze")
    ∷ acquires (text "gold")
    ∷ cancels 0
    ∷ releases
    ∷ [])
