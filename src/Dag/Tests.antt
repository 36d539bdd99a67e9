-- ===== src/Dag/Tests.antt =====
-- A graph of three nodes: "c" waits for "a" and "b".
use llm_inference.Base.{
  ℕ, ◌+◌, ◌*◌, ◌≡◌, refl, Bool, true, false, Option, none, some, List, [], ◌∷◌, arith, length,
}
use llm_inference.Base.Text.{Text}
use llm_inference.Base.Dict
use llm_inference.Load.{one}
use llm_inference.Dag.{DagNode, RequestDag, children, indegrees, kahn_loop, roots, sorted, layers}
use llm_inference.Dag.Schedule.{DagSchedConfig, Schedule}
use llm_inference.Dag.Layers.{kahn_loop-ends}
use llm_inference.Dag.Order.{Layered, layers-Layered}

abbrev node : Text → List Text → DagNode
node i parents = record { id = i; prompt = 10 ∷ i; parents = parents }

abbrev a : Text
a = 97 ∷ []

abbrev b : Text
b = 98 ∷ []

abbrev c : Text
c = 99 ∷ []

abbrev graph : RequestDag
graph = (c, node c (a ∷ b ∷ [])) ∷ (a, node a []) ∷ (b, node b []) ∷ []

abbrev cycle : RequestDag
cycle = (a, node a (b ∷ [])) ∷ (b, node b (a ∷ [])) ∷ []

abbrev graph_layers : List (List Text)
graph_layers = (a ∷ b ∷ []) ∷ (c ∷ []) ∷ []

layers_of : layers graph ≡ some graph_layers
unfolding layers Dict.has llm_inference.Base.list_beq llm_inference.Base.Text.text_ltb Dict.get_or
    Dict.set
layers_of = refl

layers_of_cycle : layers cycle ≡ none
unfolding layers Dict.has llm_inference.Base.list_beq
layers_of_cycle = refl

kahn_loop-ends_example :
    kahn_loop
      (length graph + 5)
      (children graph)
      (indegrees graph)
      (sorted (roots (indegrees graph)))
    ≡ kahn_loop (length graph) (children graph) (indegrees graph) (sorted (roots (indegrees graph)))
kahn_loop-ends_example = kahn_loop-ends graph 5

layers-Layered_example : Layered graph [] graph_layers
unfolding Dict.get llm_inference.Base.list_beq
layers-Layered_example =
    layers-Layered graph graph_layers (refl, (refl, (refl, tt))) (refl, (refl, (refl, tt)))
      layers_of

abbrev cfg : DagSchedConfig
cfg = record {
  backend_cache_blocks = 2000;
  block_chars = 1;
  hash_cutoff_blocks = 512;
  block_tokens = 16;
  prefill_ms_per_token = 50;
  service_ms_per_request = 200 * one;
  max_inflight = 64;
  parent_affinity_bonus_ms = 8 * one;
}
