-- ===== src/Affinity/Tests.antt =====
-- Concrete chunk caches.
use llm_inference.Base.{[], ◌∷◌}
use llm_inference.Base.Text.{text_eq, text}
use llm_inference.Load.{LoadTracker}
use llm_inference.Affinity.{ChunkAffinityIndex, RagConfig}
use llm_inference.Base.{◌≡◌, refl, some, map_option}
use llm_inference.Affinity.{RagRouteResult, choose_rag_backend}

abbrev index : ChunkAffinityIndex
index = record { capacity = 2; by_backend = (text "b0", (7, tt) ∷ []) ∷ [] }

abbrev load : LoadTracker
load = record { inflight = (text "b0", 2) ∷ []; inflight_tokens = []; kv_usage = [] }

abbrev cfg : RagConfig
cfg = record {
  tokens_per_chunk = 128;
  prefill_ms_per_token = 5;
  service_ms_per_request = 2000;
  max_inflight = 8;
}

-- The queue of b0 costs more than the prefill of the chunk on b1.
leaves_the_queue :
    map_option RagRouteResult.backend_id
      (choose_rag_backend (7 ∷ []) (text "b0" ∷ text "b1" ∷ []) index load cfg)
    ≡ some (text "b1")
unfolding choose_rag_backend llm_inference.Base.Dict.get_or llm_inference.Base.list_beq
    llm_inference.Affinity.cost llm_inference.Affinity.overlap llm_inference.Base.Dict.has
leaves_the_queue = refl
