-- ===== src/Cluster/Sync.antt =====
-- gateway/cluster/coordinator.py: `sync`, which is given the events that the bus has for the replica.
use llm_inference.Base.{ℕ, ◌+◌, Bool, false, ◌||◌, List, [], ◌∷◌, ◌==◌, if◌then◌else◌, length}
use llm_inference.Base.Text.{Text, text_eq}
use llm_inference.Radix
use llm_inference.Radix.{RadixTree}
use llm_inference.Load.Fleet
use llm_inference.Load.Fleet.{FleetLoadView, LoadEvent}
use llm_inference.Lww.Drain
use llm_inference.Lww.Drain.{DrainState}
use llm_inference.Lww.Members
use llm_inference.Lww.Members.{Member, MembershipState}
use llm_inference.Cluster.Event.{
  ClusterEvent, prefix_event, load_event, drain_event, drain_digest, member_event, member_digest,
  insert_kind, remove_kind, member_add,
}
use llm_inference.Cluster.Coordinator.{
  Shared, ClusterCoordinator, reconcile_drains, reconcile_membership,
}

-- What the loop of `sync` carries: `drains_changed` and `members_changed` with the state.
pub record Syncing : Type 0 where
  pub coord : ClusterCoordinator
  pub tree : RadixTree
  pub drains_changed : Bool
  pub members_changed : Bool

abbrev pub apply_prefix : Text → List ℕ → Text → RadixTree → RadixTree
apply_prefix kind hashes backend_id t =
    if kind == insert_kind
    then Radix.insert hashes backend_id t
    else if kind == remove_kind
    then Radix.remove_backend backend_id t
    else t

-- One round of the loop, but for the count of events.
unfoldable pub dispatch_event : ClusterEvent → Syncing → Syncing
dispatch_event (load_event e) s = record s {
  coord = record s.coord { fleet = Fleet.apply e s.coord.fleet };
}
dispatch_event (drain_event e) s =
    let (drain, changed) =
      Drain.apply e.backend_id (record { value = e.draining; ts = e.ts; origin = e.origin })
        s.coord.drain in
    record s {
      coord = record s.coord { drain = drain };
      drains_changed = s.drains_changed || changed;
    }
dispatch_event (drain_digest e) s =
    let (drain, changed) = Drain.merge e.entries s.coord.drain in
    record s {
      coord = record s.coord { drain = drain };
      drains_changed = s.drains_changed || changed;
    }
dispatch_event (member_event e) s =
    let (membership, changed) =
      Members.apply e.backend_id
        (record {
          value = record { present = e.action == member_add; url = e.url; model = e.model };
          ts = e.ts;
          origin = e.origin;
        })
        s.coord.membership in
    record s {
      coord = record s.coord { membership = membership };
      members_changed = s.members_changed || changed;
    }
dispatch_event (member_digest e) s =
    let (membership, changed) = Members.merge e.entries s.coord.membership in
    record s {
      coord = record s.coord { membership = membership };
      members_changed = s.members_changed || changed;
    }
dispatch_event (prefix_event e) s = record s {
  tree = apply_prefix e.kind e.hashes e.backend_id s.tree;
}

unfoldable pub count_event : Syncing → Syncing
count_event s = record s { coord = record s.coord { applied_remote = s.coord.applied_remote + 1 } }

unfoldable pub sync_events : List ClusterEvent → Syncing → Syncing
unfolding dispatch_event count_event
sync_events [] s = s
sync_events (e ∷ es) s = sync_events es (count_event (dispatch_event e s))

abbrev pub start_sync : ClusterCoordinator → RadixTree → Syncing
start_sync c t = record { coord = c; tree = t; drains_changed = false; members_changed = false }

-- The reconciliations after the loop.
unfoldable pub finish_sync : Syncing → Shared → Shared
unfolding reconcile_drains reconcile_membership
finish_sync s sh =
    let looped = record sh { tree = s.tree } in
    let drained = if s.drains_changed then reconcile_drains s.coord looped else looped in
    if s.members_changed then reconcile_membership s.coord drained else drained

-- Returns the state and the number of events.
unfoldable pub sync :
    List ClusterEvent → ClusterCoordinator → Shared → ClusterCoordinator × Shared × ℕ
unfolding sync_events finish_sync
sync events c sh =
    let s = sync_events events (start_sync c sh.tree) in (s.coord, finish_sync s sh, length events)
