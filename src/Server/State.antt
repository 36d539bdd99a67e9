-- ===== src/Server/State.antt =====
-- gateway/server.py: the objects of the module, as one state. The tree and the load tracker are those
-- that the router holds; the events of the replication that have been given to the bus are `sent`.
use llm_inference.Base.{Option, none, some, List, ◌++◌}
use llm_inference.Base.Text.{Text}
use llm_inference.Radix.{RadixTree}
use llm_inference.Load.{LoadTracker}
use llm_inference.Registry.{BackendRegistry}
use llm_inference.Circuit.{Breaker}
use llm_inference.Session.{SessionAffinity}
use llm_inference.Tenancy.{RateLimiter}
use llm_inference.Fair.Sched.{AsyncFairScheduler}
use llm_inference.Affinity.{ChunkAffinityIndex}
use llm_inference.Router.{Router}
use llm_inference.Cluster.Event.{ClusterEvent}
use llm_inference.Cluster.Coordinator.{ClusterCoordinator}

pub record Gateway (Tokenizer : Type 0) : Type 0 where
  pub router : Router
  pub loaded : Option (Text × Tokenizer)
  pub registry : BackendRegistry
  pub breaker : Breaker
  pub limiter : RateLimiter
  pub sessions : SessionAffinity
  pub rag_index : ChunkAffinityIndex
  pub scheduler : Option AsyncFairScheduler
  pub cluster : Option ClusterCoordinator
  pub sent : List ClusterEvent

module _ {Tokenizer : Type 0} where
  abbrev pub load_of : Gateway Tokenizer → LoadTracker
  load_of g = g.router.load

  abbrev pub tree_of : Gateway Tokenizer → RadixTree
  tree_of g = g.router.tree

  unfoldable pub with_load : LoadTracker → Gateway Tokenizer → Gateway Tokenizer
  with_load load g = record g { router = record g.router { load = load } }

  unfoldable pub with_tree : RadixTree → Gateway Tokenizer → Gateway Tokenizer
  with_tree tree g = record g { router = record g.router { tree = tree } }

  -- `if cluster is not None: cluster.publish_…(…)`
  unfoldable pub publish :
      (ClusterCoordinator → ClusterCoordinator × List ClusterEvent)
      → Gateway Tokenizer
      → Gateway Tokenizer
  publish call g = elim g.cluster [
    | none ↦ g
    | some c ↦ let (c', evs) = call c in record g { cluster = some c'; sent = g.sent ++ evs }
  ]
