-- ===== src/Server/Dispatch.antt =====
-- gateway/server.py: the failover loop of `chat_completions`. Whether a backend accepts the connection
-- of the k-th attempt, and the time of that attempt, are given from outside. `raised` is an
-- exception: the router has nothing to choose from, or the backend is not registered. The loop is one
-- step: the source awaits the connection, and another task (an admin call, the replication) may change the
-- gateway meanwhile, which is not modelled.
use llm_inference.Base.{
  ℕ, zero, suc, ◌+◌, Bool, false, Option, none, some, List, [], ◌∷◌, ◌==◌, if◌then◌else◌,
}
use llm_inference.Base.Text.{Text, text_eq}
use llm_inference.Base.Dict
use llm_inference.Base.Dict.{Dict}
use llm_inference.Radix
use llm_inference.Load
use llm_inference.Registry
use llm_inference.Circuit
use llm_inference.Router
use llm_inference.Router.{Router, RouteResult, Strategy}
use llm_inference.Cluster.Coordinator.{publish_insert}
use llm_inference.Server.State.{Gateway, load_of, tree_of, with_load, with_tree, publish}

pub record World : Type 0 where
  pub now : ℕ
  pub connect : ℕ → Text → Bool
  pub clock : ℕ → ℕ

pub data Outcome : Type 0 where
  raised unreachable : Outcome
  reached : RouteResult → Outcome

-- `remaining.remove(b)`
unfoldable pub remove_first : Text → List Text → List Text
remove_first b [] = []
remove_first b (c ∷ cs) = let rest = remove_first b cs in if c == b then cs else c ∷ rest

module _ {Tokenizer : Type 0} where
  -- The decision goes into the shared state before the connection is made.
  unfoldable pub commit : RouteResult → Gateway Tokenizer → Gateway Tokenizer
  unfolding with_load with_tree publish
  commit r g =
      let inserted = with_tree (Radix.insert r.hashes r.backend_id (tree_of g)) g in
      let told = publish (publish_insert r.hashes r.backend_id) inserted in
      with_load (Load.on_dispatch r.backend_id r.tokens (load_of told)) told

  -- What the `except` does about a backend that refuses the connection at a time.
  unfoldable pub give_up : RouteResult → ℕ → Gateway Tokenizer → Gateway Tokenizer
  unfolding with_load
  give_up r now g =
      let undone = with_load (Load.on_complete r.backend_id r.tokens (load_of g)) g in
      record undone {
        breaker = Circuit.record_failure undone.breaker r.backend_id now;
        registry = Registry.set_health r.backend_id false undone.registry;
      }

module _ {Tokenizer : Type 0} (from_pretrained : Text → Option Tokenizer)
    (encode_ids : Tokenizer → Text → List ℕ) where
  -- `router.choose`, on the router of the gateway
  unfoldable pub route :
      Text → List Text → Strategy → ℕ → Gateway Tokenizer → Gateway Tokenizer × Option RouteResult
  route prompt remaining strategy seed g =
      let (router, loaded, chosen) =
        Router.choose from_pretrained encode_ids g.router g.loaded prompt remaining strategy seed in
      (record g { router = router; loaded = loaded }, chosen)

  -- The loop, of which `n` rounds are left, and with the number of retries so far.
  unfoldable pub failover :
      World
      → Text
      → Strategy
      → ℕ
      → ℕ
      → ℕ
      → List Text
      → Gateway Tokenizer
      → Gateway Tokenizer × Outcome × ℕ
  unfolding route
  failover w prompt strategy seed zero retries remaining g = (g, unreachable, retries)
  failover w prompt strategy seed (suc n) retries [] g = (g, unreachable, retries)
  failover w prompt strategy seed (suc n) retries (b ∷ bs) g =
      let (routed, chosen) = route prompt (b ∷ bs) strategy seed g in
      elim chosen [
        | none ↦ (routed, raised, retries)
        | some r ↦
            let sent = commit r routed in
            let rest =
              failover w prompt strategy seed n (retries + 1) (remove_first r.backend_id (b ∷ bs))
                (give_up r (w.clock retries) sent) in
            if Dict.has r.backend_id sent.registry.by_id
            then (if w.connect retries r.backend_id then (sent, reached r, retries) else rest)
            else (sent, raised, retries)
      ]
