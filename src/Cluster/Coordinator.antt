-- ===== src/Cluster/Coordinator.antt =====
-- gateway/cluster/coordinator.py: `ClusterCoordinator`, and the in-memory store of
-- gateway/cluster/snapshot.py. The tree, the registry and the store, which the coordinator shares
-- with the gateway, are in `Shared`. A method that publishes returns the events that it gives to the
-- bus; `sync` is given the events that the bus has for the replica.
use llm_inference.Base.{
  ℕ, zero, suc, ◌+◌, Bool, true, false, Option, none, some, List, [], ◌∷◌, ltb, if◌then◌else◌,
  contains, length,
}
use llm_inference.Base.Text.{Text, text_eq}
use llm_inference.Base.Dict
use llm_inference.Base.Dict.{Dict}
use llm_inference.Radix
use llm_inference.Radix.{RadixTree}
use llm_inference.Registry
use llm_inference.Registry.{Backend, BackendRegistry}
use llm_inference.Load.Fleet
use llm_inference.Load.Fleet.{FleetLoadView, LoadEvent}
use llm_inference.Lww.Drain
use llm_inference.Lww.Drain.{DrainState}
use llm_inference.Lww.Members
use llm_inference.Lww.Members.{Member, MembershipState}
use llm_inference.Cluster.Event.{
  ClusterEvent, prefix_event, load_event, drain_event, drain_digest, member_event, member_digest,
  insert_kind, remove_kind, member_add, member_remove,
}

-- `InMemorySnapshotStore`: the keys are the drained backends.
abbrev pub Store : Type 0
Store = Dict Text (Unit {0})

unfoldable pub record_drain : Text → Bool → Store → Store
record_drain id draining s = if draining then Dict.set id tt s else Dict.remove id s

pub record Shared : Type 0 where
  pub tree : RadixTree
  pub registry : Option BackendRegistry
  pub store : Option Store

pub record ClusterCoordinator : Type 0 where
  pub replica_id : Text
  pub fleet : FleetLoadView
  pub drain : DrainState
  pub membership : MembershipState
  pub seq : ℕ
  pub published : ℕ
  pub applied_remote : ℕ

unfoldable pub init : Text → ClusterCoordinator
init replica_id = record {
  replica_id = replica_id;
  fleet = Fleet.init;
  drain = Drain.init;
  membership = Members.init;
  seq = 0;
  published = 0;
  applied_remote = 0;
}

-- `self._seq += 1` … `self.published += 1`
abbrev pub counted : ClusterCoordinator → ClusterCoordinator
counted c = record c { seq = c.seq + 1; published = c.published + 1 }

unfoldable pub publish_insert :
    List ℕ → Text → ClusterCoordinator → ClusterCoordinator × List ClusterEvent
publish_insert [] backend_id c = (c, [])
publish_insert (h ∷ hashes) backend_id c = (
  counted c,
  prefix_event (record {
    kind = insert_kind;
    backend_id = backend_id;
    origin = c.replica_id;
    seq = c.seq + 1;
    hashes = h ∷ hashes;
  })
      ∷ [],
)

unfoldable pub publish_remove : Text → ClusterCoordinator → ClusterCoordinator × List ClusterEvent
publish_remove backend_id c = (
  counted c,
  prefix_event (record {
    kind = remove_kind;
    backend_id = backend_id;
    origin = c.replica_id;
    seq = c.seq + 1;
    hashes = [];
  })
      ∷ [],
)

-- `{k: v for k, v in inflight.items() if v}`
unfoldable pub nonzero : Dict Text ℕ → Dict Text ℕ
nonzero [] = []
nonzero ((k, v) ∷ d) = let rest = nonzero d in if ltb 0 v then (k, v) ∷ rest else rest

unfoldable pub publish_load :
    Dict Text ℕ → List Text → ClusterCoordinator → ClusterCoordinator × List ClusterEvent
unfolding nonzero
publish_load inflight unhealthy c = (
  counted c,
  load_event (record {
    origin = c.replica_id;
    seq = c.seq + 1;
    inflight = nonzero inflight;
    unhealthy = unhealthy;
  })
      ∷ [],
)

-- `for b in self._registry.all(): self._registry.set_draining(b.id, b.id in drained)`
unfoldable pub set_flags : List Text → List Backend → BackendRegistry → BackendRegistry
set_flags drained [] r = r
set_flags drained (b ∷ bs) r =
    set_flags drained bs (Registry.set_draining b.id (contains b.id drained) r).0

unfoldable pub reconcile_drains : ClusterCoordinator → Shared → Shared
reconcile_drains c sh = elim sh.registry [
  | none ↦ sh
  | some r ↦ record sh {
    registry = some (set_flags (Drain.drained c.drain.s) (Dict.values r.by_id) r);
  }
]

-- `registry.add(bid, url, model or None)` for the present members
unfoldable pub add_members : List (Text × Text × Text) → BackendRegistry → BackendRegistry
add_members [] r = r
add_members ((id, url, model) ∷ ms) r = add_members ms (Registry.add id url (some model) r).0

-- `if self._registry.remove(bid): self._tree.remove_backend(bid)`
unfoldable pub drop_members : List Text → RadixTree → BackendRegistry → RadixTree × BackendRegistry
drop_members [] t r = (t, r)
drop_members (id ∷ ids) t r =
    let (r', known) = Registry.remove id r in
    drop_members ids (if known then Radix.remove_backend id t else t) r'

unfoldable pub reconcile_membership : ClusterCoordinator → Shared → Shared
reconcile_membership c sh = elim sh.registry [
  | none ↦ sh
  | some r ↦
      let added = add_members (Members.present c.membership.s) r in
      let (t, r') = drop_members (Members.removed c.membership.s) sh.tree added in
      record sh { tree = t; registry = some r' }
]

abbrev recorded : Text → Bool → Option Store → Option Store
recorded id draining none = none
recorded id draining (some s) = some (record_drain id draining s)

unfoldable pub publish_drain :
    Text → Bool → ClusterCoordinator → Shared → ClusterCoordinator × Shared × List ClusterEvent
unfolding record_drain
publish_drain backend_id draining c sh =
    let (drain, ts) = Drain.set_local backend_id draining c.replica_id c.drain in
    let c' = counted (record c { drain = drain }) in
    (
      c',
      reconcile_drains c' (record sh { store = recorded backend_id draining sh.store }),
      drain_event (record {
        origin = c.replica_id;
        seq = c.seq + 1;
        ts = ts;
        backend_id = backend_id;
        draining = draining;
      })
          ∷ [],
    )

unfoldable pub publish_member_add :
    Text → Text → Text → ClusterCoordinator → ClusterCoordinator × List ClusterEvent
publish_member_add backend_id url model c =
    let (membership, ts) =
      Members.set_local backend_id (record { present = true; url = url; model = model })
        c.replica_id c.membership in
    (
      counted (record c { membership = membership }),
      member_event (record {
        origin = c.replica_id;
        seq = c.seq + 1;
        action = member_add;
        backend_id = backend_id;
        url = url;
        model = model;
        ts = ts;
      })
          ∷ [],
    )

unfoldable pub publish_member_remove :
    Text → ClusterCoordinator → ClusterCoordinator × List ClusterEvent
publish_member_remove backend_id c =
    let (membership, ts) =
      Members.set_local backend_id (record { present = false; url = []; model = [] }) c.replica_id
        c.membership in
    (
      counted (record c { membership = membership }),
      member_event (record {
        origin = c.replica_id;
        seq = c.seq + 1;
        action = member_remove;
        backend_id = backend_id;
        url = [];
        model = [];
        ts = ts;
      })
          ∷ [],
    )

-- `if len(…) == 0: return`, and else the event is published.
abbrev pub publish_unless_empty :
    ℕ → ClusterEvent → ClusterCoordinator → ClusterCoordinator × List ClusterEvent
publish_unless_empty zero e c = (c, [])
publish_unless_empty (suc n) e c = (counted c, e ∷ [])

unfoldable pub publish_membership_digest :
    ClusterCoordinator → ClusterCoordinator × List ClusterEvent
publish_membership_digest c =
    publish_unless_empty (length c.membership.s)
      (member_digest
        (record { origin = c.replica_id; seq = c.seq + 1; entries = Members.digest c.membership }))
      c

unfoldable pub publish_drain_digest : ClusterCoordinator → ClusterCoordinator × List ClusterEvent
publish_drain_digest c =
    publish_unless_empty (length c.drain.s)
      (drain_digest
        (record { origin = c.replica_id; seq = c.seq + 1; entries = Drain.digest c.drain }))
      c

-- `for bid in drained: self._drain.set_local(bid, True, self._replica_id)`
unfoldable pub seed_drains : Text → Store → DrainState → DrainState
seed_drains rid [] st = st
seed_drains rid ((id, u) ∷ s) st = seed_drains rid s (Drain.set_local id true rid st).0

-- Also returns the drained backends.
unfoldable pub warm_start : ClusterCoordinator → Shared → ClusterCoordinator × Shared × List Text
unfolding seed_drains
warm_start c sh = elim sh.store [
  | none ↦ (c, sh, [])
  | some s ↦
      let c' = record c { drain = seed_drains c.replica_id s c.drain } in
      (c', reconcile_drains c' sh, Dict.keys s)
]
