-- ===== src/Disagg/Tests.antt =====
-- A concrete split of a request.
use llm_inference.Base.{
  ℕ, ◌≡◌, ◌≤◌, refl, Bool, true, false, Option, none, some, List, [], ◌∷◌, All,
}
use llm_inference.Base.Text.{text_eq, text}
use llm_inference.Load.{LoadTracker}
use llm_inference.Disagg.{
  PoolRegistry, DisaggConfig, Request, DisaggDecision, both, colocated_ms, coloc_pool, decision,
  choose_disaggregated,
}
use llm_inference.Disagg.Choice.{choose_disaggregated-le}

abbrev cfg : DisaggConfig
cfg = record {
  prefill_ms_per_token = 5;
  decode_ms_per_token = 20;
  prefill_service_ms = 8000;
  decode_service_ms = 4000;
  block_tokens = 16;
  kv_bytes_per_token = 2;
  link = 1000000000;
  max_inflight = 64;
  kv_pressure_cutoff = 900000000;
  disagg_margin_ms = 100;
}

abbrev pools : PoolRegistry
pools = (text "b0", both) ∷ (text "b1", record { prefill = false; decode = true }) ∷ []

abbrev load : LoadTracker
load = record { inflight = (text "b0", 2) ∷ []; inflight_tokens = []; kv_usage = [] }

abbrev request : Request
request = record { prompt_tokens = 100; output_tokens = 50; prefill_match = [] }

splits :
    choose_disaggregated request pools load cfg
    ≡ some (decision request load cfg 200 (text "b0") (text "b1"))
unfolding choose_disaggregated llm_inference.Disagg.candidates llm_inference.Disagg.pool_of
    llm_inference.Base.Dict.get_or llm_inference.Base.list_beq decision llm_inference.Disagg.decide
    llm_inference.Affinity.cheapest llm_inference.Disagg.decode_ms llm_inference.Disagg.prefill_ms
    llm_inference.Disagg.kv_transfer_ms
splits = refl

choose_disaggregated-le_example :
    All
      (λ b.
        (decision request load cfg 200 (text "b0") (text "b1")).est_total_ms
        ≤ colocated_ms request load cfg b)
      (coloc_pool pools load cfg)
choose_disaggregated-le_example =
    choose_disaggregated-le request pools load cfg
      (decision request load cfg 200 (text "b0") (text "b1")) splits
