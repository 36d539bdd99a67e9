-- ===== src/Registry/Tests.antt =====
-- A concrete fleet.
use llm_inference.Base.{
  ℕ, ◌≡◌, ◌≢◌, refl, Bool, true, false, Option, none, some, List, [], ◌∷◌, arith, contains,
}
use llm_inference.Base.Text.{text_eq, text}
use llm_inference.Base.Dict
use llm_inference.Registry.{BackendRegistry, ids_for, lora_filter}
use llm_inference.Registry.Runs.{Call, added, removed, health, draining, run, contains-run}

abbrev fleet : BackendRegistry
fleet = record {
  by_id =
      (
        text "b0",
        record {
          id = text "b0";
          url = text "http://b0";
          model = text "m";
          healthy = true;
          draining = false;
          adapters = text "sql" ∷ [];
        },
      )
      ∷ (
        text "b1",
        record {
          id = text "b1";
          url = text "http://b1";
          model = text "m";
          healthy = true;
          draining = false;
          adapters = [];
        },
      )
      ∷ [];
  default_model = text "m";
}

-- b0 was drained before it was removed and added again.
abbrev hist : List Call
hist =
    health (text "b0") true
    ∷ added (text "b0") (text "http://b0") none
    ∷ removed (text "b0")
    ∷ draining (text "b0") true
    ∷ added (text "b0") (text "http://b0") none
    ∷ []

contains-run_example : contains (text "b0") (ids_for (some (text "m")) (run (text "m") hist)) ≡ true
unfolding llm_inference.Base.list_beq
contains-run_example = contains-run (some (text "m")) (text "m") (text "b0") hist

serves_sql :
    contains (text "b0") (lora_filter fleet (some (text "m")) (some (text "sql")) true) ≡ true
unfolding contains lora_filter ids_for llm_inference.Base.list_beq Dict.get
serves_sql = refl
