-- ===== src/Affinity.antt =====
-- gateway/rag/index.py and gateway/rag/router.py: which chunks every backend has cached, as a
-- least-recently-used table for each, and the choice of a backend by it. Times are in 10^-9 ms.
pub mod Choice
mod Tests
use llm_inference.Base.{
  ℕ, ◌+◌, ◌-◌, ◌*◌, Bool, true, false, Option, none, some, List, [], ◌∷◌, if◌then◌else◌, leb, ltb,
  length, filter, nat_eq,
}
use llm_inference.Base.Text.{Text, text_eq}
use llm_inference.Base.Dict
use llm_inference.Base.Dict.{Dict}
use llm_inference.Base.Lru.{evict, touch}
use llm_inference.Load.{LoadTracker, inflight_of}

pub record ChunkAffinityIndex : Type 0 where
  pub capacity : ℕ
  pub by_backend : Dict Text (Dict ℕ (Unit {0}))

abbrev pub cache_of : ChunkAffinityIndex → Text → Dict ℕ (Unit {0})
cache_of x b = Dict.get_or b [] x.by_backend

unfoldable pub use_all : List ℕ → Dict ℕ (Unit {0}) → Dict ℕ (Unit {0})
use_all [] c = c
use_all (cid ∷ ids) c = use_all ids (touch cid tt c)

-- `record` of the source, which is a reserved word here.
unfoldable pub record_ids : Text → List ℕ → ChunkAffinityIndex → ChunkAffinityIndex
record_ids b ids x = record x {
  by_backend = Dict.set b (evict x.capacity (use_all ids (cache_of x b))) x.by_backend;
}

unfoldable pub count_in : Dict ℕ (Unit {0}) → List ℕ → ℕ
count_in c [] = 0
count_in c (cid ∷ ids) = let rest = count_in c ids in if Dict.has cid c then rest + 1 else rest

unfoldable pub overlap : ChunkAffinityIndex → Text → List ℕ → ℕ
unfolding count_in
overlap x b ids = count_in (cache_of x b) ids

unfoldable pub remove_backend : Text → ChunkAffinityIndex → ChunkAffinityIndex
remove_backend b x = record x { by_backend = Dict.remove b x.by_backend }

pub record RagConfig : Type 0 where
  pub tokens_per_chunk : ℕ
  pub prefill_ms_per_token : ℕ
  pub service_ms_per_request : ℕ
  pub max_inflight : ℕ

pub record RagRouteResult : Type 0 where
  pub backend_id : Text
  pub overlap : ℕ
  pub total_chunks : ℕ
  pub est_ms : ℕ

unfoldable pub cost : ChunkAffinityIndex → LoadTracker → RagConfig → List ℕ → Text → ℕ
cost x load cfg ids b =
    cfg.prefill_ms_per_token * ((length ids - overlap x b ids) * cfg.tokens_per_chunk)
    + inflight_of load b * cfg.service_ms_per_request

abbrev pub has_room : LoadTracker → RagConfig → Text → Bool
has_room load cfg b = leb (inflight_of load b) cfg.max_inflight

abbrev pub or_all : List Text → List Text → List Text
or_all [] backends = backends
or_all (b ∷ bs) backends = b ∷ bs

unfoldable pub eligible_of : LoadTracker → RagConfig → List Text → List Text
eligible_of load cfg backends = or_all (filter (has_room load cfg) backends) backends

-- The loop, with the best backend so far: a later one wins only if it is cheaper.
unfoldable pub cheapest : (Text → ℕ) → Text → List Text → Text
cheapest est best [] = best
cheapest est best (b ∷ bs) = cheapest est (if ltb (est b) (est best) then b else best) bs

abbrev pub best_of : (Text → ℕ) → List Text → Option Text
best_of est [] = none
best_of est (b ∷ bs) = some (cheapest est b bs)

abbrev pub result_of : List ℕ → ChunkAffinityIndex → LoadTracker → RagConfig → Text → RagRouteResult
result_of ids x load cfg b = record {
  backend_id = b;
  overlap = overlap x b ids;
  total_chunks = length ids;
  est_ms = cost x load cfg ids b;
}

-- `none`: there are no backends.
unfoldable pub choose_rag_backend :
    List ℕ → List Text → ChunkAffinityIndex → LoadTracker → RagConfig → Option RagRouteResult
unfolding eligible_of cheapest
choose_rag_backend ids backends x load cfg =
    elim (best_of (cost x load cfg ids) (eligible_of load cfg backends)) [
      | none ↦ none
      | some b ↦ some (result_of ids x load cfg b)
    ]
