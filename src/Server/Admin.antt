-- ===== src/Server/Admin.antt =====
-- gateway/server.py: the admin endpoints, one answer of the health scrape, and one tick of the
-- replication loop. Metrics and logs are left out.
use llm_inference.Base.{
  ℕ, ◌%◌, Bool, true, false, not, ◌||◌, Option, none, some, List, [], ◌∷◌, ◌++◌, ◌==◌, nat_eq,
  if◌then◌else◌,
}
use llm_inference.Base.Text.{Text, text_eq}
use llm_inference.Base.Dict
use llm_inference.Base.Dict.{Dict}
use llm_inference.Radix
use llm_inference.Load.{LoadTracker}
use llm_inference.Registry
use llm_inference.Registry.{Backend, BackendRegistry}
use llm_inference.Circuit
use llm_inference.Session
use llm_inference.Auth.{extract_bearer, compare_digest}
use llm_inference.Cluster.Event.{ClusterEvent}
use llm_inference.Cluster.Coordinator.{
  ClusterCoordinator, Shared, publish_remove, publish_load, publish_drain, publish_member_add,
  publish_member_remove, publish_membership_digest, publish_drain_digest, Store,
}
use llm_inference.Cluster.Sync.{sync}
use llm_inference.Server.State.{Gateway, load_of, tree_of, with_tree, publish}

-- The headers of an admin request.
pub record AdminHeaders : Type 0 where
  pub admin_token : Text
  pub authorization : Text

-- The answers: 403, 400, 404, an exception, and 200, the last one with the flag in its body.
pub data AdminResponse : Type 0 where
  forbidden bad_request not_found raised : AdminResponse
  done : Bool → AdminResponse

abbrev pub text_or : Option Text → Text
text_or none = []
text_or (some s) = s

abbrev pub presented : AdminHeaders → Text
presented h = elim h.admin_token [ [] ↦ text_or (extract_bearer h.authorization) | c ∷ s ↦ c ∷ s ]

-- `none` is the TypeError of `hmac.compare_digest`.
unfoldable pub is_authorized : Text → AdminHeaders → Option Bool
unfolding compare_digest
is_authorized [] h = some false
is_authorized (c ∷ token) h = elim (presented h) [
  | [] ↦ some false
  | d ∷ s ↦ compare_digest (d ∷ s) (c ∷ token)
]

-- What an endpoint does on an exception of the guard, after a refusal, and for an authorized caller.
abbrev pub guarded {ℓ} : {A : Type ℓ} → Option Bool → A → A → A → A
guarded none crash refused action = crash
guarded (some false) crash refused action = refused
guarded (some true) crash refused action = action

abbrev pub registry_or : BackendRegistry → Option BackendRegistry → BackendRegistry
registry_or r none = r
registry_or r (some r') = r'

abbrev pub is_blank : Text → Bool
is_blank [] = true
is_blank (c ∷ s) = false

unfoldable pub forget_load : Text → LoadTracker → LoadTracker
forget_load bid l = record l {
  inflight = Dict.remove bid l.inflight;
  kv_usage = Dict.remove bid l.kv_usage;
}

-- An answer of a backend's /health: status 200, another one, or an exception.
pub data Health : Type 0 where
  healthy unhealthy unreachable : Health

-- `sync`, which publishes nothing
abbrev pub quietly :
    List ClusterEvent
    → ClusterCoordinator
    → Shared
    → ClusterCoordinator × Shared × List ClusterEvent
quietly events c sh = let (c', sh', n) = sync events c sh in (c', sh', [])

-- `[b.id for b in registry.all() if breaker.state_code(b.id) == 2 or not b.healthy]`
unfoldable pub shed_ids : Circuit.Breaker → ℕ → Dict Text Backend → List Text
shed_ids br now [] = []
shed_ids br now ((k, b) ∷ d) =
    let rest = shed_ids br now d in
    if Circuit.state_code (Circuit.state br b.id now) == 2 || not b.healthy
    then b.id ∷ rest
    else rest

module _ {Tokenizer : Type 0} where
  -- The router reads the coordinator's own view of the fleet.
  abbrev pub see_fleet : Gateway Tokenizer → Gateway Tokenizer
  see_fleet g = elim g.cluster [
    | none ↦ g
    | some c ↦ record g { router = record g.router { fleet = some c.fleet } }
  ]

  -- The coordinator's methods that touch the registry, over the objects of the gateway.
  unfoldable pub with_cluster :
      (ClusterCoordinator → Shared → ClusterCoordinator × Shared × List ClusterEvent)
      → Option Store
      → Gateway Tokenizer
      → Gateway Tokenizer × Option Store
  unfolding with_tree
  with_cluster call store g = elim g.cluster [
    | none ↦ (g, store)
    | some c ↦
        let (c', sh, evs) =
          call c (record { tree = tree_of g; registry = some g.registry; store = store }) in
        (
          record (with_tree sh.tree g) {
            registry = registry_or g.registry sh.registry;
            cluster = some c';
            sent = g.sent ++ evs;
          },
          sh.store,
        )
  ]

  -- The body's id, URL and model, as far as they are there.
  unfoldable pub admin_add_backend :
      Text
      → AdminHeaders
      → Text
      → Text
      → Option Text
      → Gateway Tokenizer
      → Gateway Tokenizer × AdminResponse
  unfolding publish
  admin_add_backend token h bid url model g =
      let (registry, created) = Registry.add bid url model g.registry in
      let added =
        publish (publish_member_add bid url (text_or model)) (record g { registry = registry }) in
      guarded (is_authorized token h) (g, raised) (g, forbidden)
        (if is_blank bid || is_blank url then (g, bad_request) else (added, done created))

  -- The prefixes, the load and the sessions of a backend are dropped.
  unfoldable pub forget_backend : Text → Gateway Tokenizer → Gateway Tokenizer
  unfolding forget_load
  forget_backend bid g = record g {
    router = record g.router {
      tree = Radix.remove_backend bid (tree_of g);
      load = forget_load bid (load_of g);
    };
    sessions = (Session.forget_backend g.sessions bid).0;
  }

  unfoldable pub admin_remove_backend :
      Text → AdminHeaders → Text → Gateway Tokenizer → Gateway Tokenizer × AdminResponse
  unfolding publish forget_backend
  admin_remove_backend token h bid g =
      let (registry, known) = Registry.remove bid g.registry in
      guarded (is_authorized token h) (g, raised) (g, forbidden)
        (if not known then (record g { registry = registry }, not_found) else (
          publish (publish_member_remove bid)
              (forget_backend bid (record g { registry = registry })),
          done true,
        ))

  -- `/drain` and `/undrain`
  unfoldable pub admin_drain :
      Text
      → AdminHeaders
      → Text
      → Bool
      → Option Store
      → Gateway Tokenizer
      → Gateway Tokenizer × Option Store × AdminResponse
  unfolding with_cluster
  admin_drain token h bid draining store g =
      let (registry, known) = Registry.set_draining bid draining g.registry in
      let (told, store') =
        with_cluster (publish_drain bid draining) store (record g { registry = registry }) in
      guarded (is_authorized token h) (g, store, raised) (g, store, forbidden)
        (if not known
          then (record g { registry = registry }, store, not_found)
          else (told, store', done draining))

  -- The body of the loop of `scrape_loop` over the backends.
  unfoldable pub scraped : Text → Health → ℕ → Gateway Tokenizer → Gateway Tokenizer
  unfolding publish with_tree
  scraped b healthy now g = record g {
    registry = Registry.set_health b true g.registry;
    breaker = Circuit.record_success g.breaker b;
  }
  scraped b unhealthy now g = record g {
    registry = Registry.set_health b false g.registry;
    breaker = Circuit.record_failure g.breaker b now;
  }
  scraped b unreachable now g =
      let marked = record g {
        registry = Registry.set_health b false g.registry;
        breaker = Circuit.record_failure g.breaker b now;
      } in
      publish (publish_remove b) (with_tree (Radix.remove_backend b (tree_of marked)) marked)

  -- One round of `cluster_sync_loop`, with the events that the bus has for the replica.
  unfoldable pub sync_tick :
      ℕ
      → ℕ
      → List ClusterEvent
      → Option Store
      → Gateway Tokenizer
      → Gateway Tokenizer × Option Store
  unfolding publish with_cluster shed_ids
  sync_tick tick now events store g =
      let told =
        publish (publish_load (load_of g).inflight (shed_ids g.breaker now g.registry.by_id)) g in
      let digested =
        if tick % 8 == 0
        then publish publish_membership_digest (publish publish_drain_digest told)
        else told in
      let (synced, store') = with_cluster (quietly events) store digested in
      (see_fleet synced, store')
