-- ===== src/Cluster/Folds.antt =====
-- gateway/cluster/coordinator.py: `sync` as folds over a batch of events.
use llm_inference.Base.{
  ◌+◌, ◌≡◌, refl, sym, ap, ◌∙◌, Bool, List, [], ◌∷◌, ◌++◌, arith, length, ◌==◌,
}
use llm_inference.Base.Text.{Text, text_eq}
use llm_inference.Base.Dict.{Dict}
use llm_inference.Load.Fleet
use llm_inference.Load.Fleet.{FleetLoadView, LoadEvent}
use llm_inference.Lww.Join.{Op, adopt_all}
use llm_inference.Lww.Version.{Version, adopt}
use llm_inference.Lww.Members.{Member}
use llm_inference.Lww.Drain.Laws as DrainLaws
use llm_inference.Lww.Members.Laws as MemberLaws
use llm_inference.Cluster.Event.{
  ClusterEvent, prefix_event, load_event, drain_event, drain_digest, member_event, member_digest,
  member_add,
}
use llm_inference.Cluster.Coordinator.{ClusterCoordinator, Shared}
use llm_inference.Cluster.Sync.{Syncing, sync, sync_events, count_event, dispatch_event, start_sync}

-- The drain operations that an event carries.
abbrev pub drain_ops_of : ClusterEvent → List (Op Bool)
drain_ops_of (drain_event e) =
    (e.backend_id, record { value = e.draining; ts = e.ts; origin = e.origin }) ∷ []
drain_ops_of (drain_digest e) = e.entries
drain_ops_of (prefix_event e) = []
drain_ops_of (load_event e) = []
drain_ops_of (member_event e) = []
drain_ops_of (member_digest e) = []

abbrev pub member_ops_of : ClusterEvent → List (Op Member)
member_ops_of (member_event e) =
    let entry : Member = record {
      present = e.action == member_add;
      url = e.url;
      model = e.model;
    } in
    (e.backend_id, record { value = entry; ts = e.ts; origin = e.origin }) ∷ []
member_ops_of (member_digest e) = e.entries
member_ops_of (prefix_event e) = []
member_ops_of (load_event e) = []
member_ops_of (drain_event e) = []
member_ops_of (drain_digest e) = []

abbrev pub drain_ops : List ClusterEvent → List (Op Bool)
drain_ops [] = []
drain_ops (e ∷ es) = drain_ops_of e ++ drain_ops es

abbrev pub member_ops : List ClusterEvent → List (Op Member)
member_ops [] = []
member_ops (e ∷ es) = member_ops_of e ++ member_ops es

-- The last snapshot of every peer.
abbrev pub snapshots : List ClusterEvent → FleetLoadView → FleetLoadView
snapshots [] v = v
snapshots (load_event e ∷ es) v = snapshots es (Fleet.apply e v)
snapshots (prefix_event e ∷ es) v = snapshots es v
snapshots (drain_event e ∷ es) v = snapshots es v
snapshots (drain_digest e ∷ es) v = snapshots es v
snapshots (member_event e ∷ es) v = snapshots es v
snapshots (member_digest e ∷ es) v = snapshots es v

adopt_all-append :
    {V : Type 0} (d : Dict Text (Version V)) (xs ys : List (Op V))
    → adopt_all d (xs ++ ys) ≡ adopt_all (adopt_all d xs) ys
unfolding adopt_all
adopt_all-append d [] ys = refl
adopt_all-append d ((id, v) ∷ xs) ys = adopt_all-append (adopt id v d) xs ys

drain-dispatch_event :
    (e : ClusterEvent) (s : Syncing)
    → (dispatch_event e s).coord.drain.s ≡ adopt_all s.coord.drain.s (drain_ops_of e)
unfolding dispatch_event adopt_all
drain-dispatch_event (drain_event e) s = DrainLaws.s-apply _ _ s.coord.drain
drain-dispatch_event (drain_digest e) s = DrainLaws.s-merge e.entries s.coord.drain
drain-dispatch_event (prefix_event e) s = refl
drain-dispatch_event (load_event e) s = refl
drain-dispatch_event (member_event e) s = refl
drain-dispatch_event (member_digest e) s = refl

members-dispatch_event :
    (e : ClusterEvent) (s : Syncing)
    → (dispatch_event e s).coord.membership.s ≡ adopt_all s.coord.membership.s (member_ops_of e)
unfolding dispatch_event adopt_all
members-dispatch_event (member_event e) s = MemberLaws.s-apply _ _ s.coord.membership
members-dispatch_event (member_digest e) s = MemberLaws.s-merge e.entries s.coord.membership
members-dispatch_event (prefix_event e) s = refl
members-dispatch_event (load_event e) s = refl
members-dispatch_event (drain_event e) s = refl
members-dispatch_event (drain_digest e) s = refl

pub drain-sync_events :
    (evs : List ClusterEvent) (s : Syncing)
    → (sync_events evs s).coord.drain.s ≡ adopt_all s.coord.drain.s (drain_ops evs)
unfolding sync_events adopt_all count_event
drain-sync_events [] s = refl
drain-sync_events (e ∷ evs) s =
    drain-sync_events evs (count_event (dispatch_event e s))
    ∙ ap (λ d. adopt_all d (drain_ops evs)) (drain-dispatch_event e s)
    ∙ sym (adopt_all-append s.coord.drain.s (drain_ops_of e) (drain_ops evs))

pub members-sync_events :
    (evs : List ClusterEvent) (s : Syncing)
    → (sync_events evs s).coord.membership.s ≡ adopt_all s.coord.membership.s (member_ops evs)
unfolding sync_events adopt_all count_event
members-sync_events [] s = refl
members-sync_events (e ∷ evs) s =
    members-sync_events evs (count_event (dispatch_event e s))
    ∙ ap (λ d. adopt_all d (member_ops evs)) (members-dispatch_event e s)
    ∙ sym (adopt_all-append s.coord.membership.s (member_ops_of e) (member_ops evs))

fleet-sync_events :
    (evs : List ClusterEvent) (s : Syncing)
    → (sync_events evs s).coord.fleet ≡ snapshots evs s.coord.fleet
unfolding sync_events dispatch_event count_event
fleet-sync_events [] s = refl
fleet-sync_events (load_event e ∷ evs) s = fleet-sync_events evs _
fleet-sync_events (prefix_event e ∷ evs) s = fleet-sync_events evs _
fleet-sync_events (drain_event e ∷ evs) s = fleet-sync_events evs _
fleet-sync_events (drain_digest e ∷ evs) s = fleet-sync_events evs _
fleet-sync_events (member_event e ∷ evs) s = fleet-sync_events evs _
fleet-sync_events (member_digest e ∷ evs) s = fleet-sync_events evs _

applied-dispatch_event :
    (e : ClusterEvent) (s : Syncing)
    → (dispatch_event e s).coord.applied_remote ≡ s.coord.applied_remote
unfolding dispatch_event
applied-dispatch_event (drain_event e) s = refl
applied-dispatch_event (drain_digest e) s = refl
applied-dispatch_event (prefix_event e) s = refl
applied-dispatch_event (load_event e) s = refl
applied-dispatch_event (member_event e) s = refl
applied-dispatch_event (member_digest e) s = refl

applied-sync_events :
    (evs : List ClusterEvent) (s : Syncing)
    → (sync_events evs s).coord.applied_remote ≡ s.coord.applied_remote + length evs
unfolding sync_events count_event
applied-sync_events [] s = omega arith
applied-sync_events (e ∷ evs) s =
    omega (
      arith,
      applied-sync_events evs (count_event (dispatch_event e s)),
      applied-dispatch_event e s,
    )

-- The maps and the view are folds over the batch.
pub sync-folds :
    (evs : List ClusterEvent) (c : ClusterCoordinator) (sh : Shared)
    → ((sync evs c sh).0.drain.s ≡ adopt_all c.drain.s (drain_ops evs))
      × ((sync evs c sh).0.membership.s ≡ adopt_all c.membership.s (member_ops evs))
      × ((sync evs c sh).0.fleet ≡ snapshots evs c.fleet)
      × ((sync evs c sh).0.applied_remote ≡ c.applied_remote + length evs)
      × ((sync evs c sh).2 ≡ length evs)
unfolding sync
sync-folds evs c sh =
    let s = start_sync c sh.tree in
    (
      drain-sync_events evs s,
      members-sync_events evs s,
      fleet-sync_events evs s,
      applied-sync_events evs s,
      refl,
    )
