-- ===== src/Cluster/Tests.antt =====
-- Concrete events and coordinators.
use llm_inference.Load.Fleet.{LoadEvent}
use llm_inference.Cluster.Merging.{IsWinner, reported, last_report}
use llm_inference.Base.{length}
use llm_inference.Base.{
  ℕ, ◌+◌, ◌≡◌, ◌≢◌, refl, sym, ap, ◌∙◌, inl, map, Bool, true, false, Option, none, some, List, [],
  ◌∷◌, arith, length, if◌then◌else◌, ◌==◌, eq_iff, list_beq,
}
use llm_inference.Base.Text.{Text, text_eq, text}
use llm_inference.Base.Dict
use llm_inference.Base.Dict.{Dict, IsDict}
use llm_inference.Radix
use llm_inference.Radix.{RadixTree}
use llm_inference.Registry.{Backend, BackendRegistry, new_backend}
use llm_inference.Registry.Laws.{IsValid}
use llm_inference.Lww.Version.{Version}
use llm_inference.Lww.Join.{Op, In, here, there}
use llm_inference.Lww.Converge.{IsCoherent, Covers}
use llm_inference.Lww.Drain
use llm_inference.Lww.Members.{Member}
use llm_inference.Cluster.Event.{ClusterEvent, drain_event, drain_digest, member_event, member_add}
use llm_inference.Cluster.Coordinator.{
  ClusterCoordinator, Shared, init, publish_drain, reconcile_membership,
}
use llm_inference.Cluster.Sync.{sync}
use llm_inference.Cluster.Sequence.{Call, run, Counts, run-Counts}
use llm_inference.Cluster.Folds.{drain_ops, member_ops}
use llm_inference.Cluster.Merging.{sync-merge, sync_converges}
use llm_inference.Cluster.Flags.{registry_at, Follows, sync-flags}
use llm_inference.Cluster.Codec.{to_json}
use llm_inference.Cluster.Wire.{receive_gossip, receive_gossip-run}
use llm_inference.Cluster.Reach.{polled, drain_reaches}
use llm_inference.Cluster.Membership.{get-reconcile_membership, sync-not-Follows}

abbrev b0 : Text
b0 = text "b0"

abbrev backend0 : Backend
backend0 = new_backend b0 (text "u0") (text "m")

abbrev pool : BackendRegistry
pool = record { by_id = (b0, backend0) ∷ []; default_model = text "m" }

abbrev no_backends : BackendRegistry
no_backends = record { by_id = []; default_model = text "m" }

abbrev shared : BackendRegistry → Shared
shared r = record { tree = Radix.init 4; registry = some r; store = some [] }

abbrev replica : Text → ClusterCoordinator
replica id = init id

abbrev r1 : Text
r1 = text "r1"

abbrev r2 : Text
r2 = text "r2"

abbrev drain0 : ClusterEvent
drain0 = drain_event (record { origin = r1; seq = 1; ts = 1; backend_id = b0; draining = true })

abbrev digest0 : ClusterEvent
digest0 = drain_digest (record {
  origin = r1;
  seq = 2;
  entries = (b0, record { value = true; ts = 1; origin = r1 }) ∷ [];
})

abbrev join0 : ClusterEvent
join0 = member_event (record {
  origin = r1;
  seq = 3;
  action = member_add;
  backend_id = b0;
  url = text "u0";
  model = text "m";
  ts = 1;
})

pool-IsValid : IsValid pool
unfolding Dict.get
pool-IsValid = record { distinct = (refl, tt); named = (refl, tt) }

apart : r1 ≢ r2
unfolding list_beq
apart e = ground (arith, (eq_iff r1 r2).1 e)

new-Follows : (id : Text) → Follows (init id).drain pool
unfolding init Dict.get
new-Follows id = record { at_key = λ k b h. ground (arith, h) }

abbrev calls : List Call
calls = Call.drain b0 true ∷ Call.drain_digest ∷ Call.receive (join0 ∷ []) ∷ Call.remove b0 ∷ []

run-Counts_example :
    Counts
      (replica r2)
      (run calls (replica r2) (shared pool)).0
      (run calls (replica r2) (shared pool)).2
run-Counts_example = run-Counts calls (replica r2) (shared pool)

abbrev batch : List ClusterEvent
batch = drain0 ∷ digest0 ∷ join0 ∷ []

abbrev after_batch : ClusterCoordinator
after_batch = (sync batch (replica r2) (shared pool)).0

sync-merge_example :
    IsWinner b0 none (drain_ops batch) (Dict.get b0 after_batch.drain.s)
    × IsWinner b0 none (member_ops batch) (Dict.get b0 after_batch.membership.s)
    × (Dict.get r1 after_batch.fleet.inflight
        ≡ reported LoadEvent.inflight (last_report r1 batch) none)
    × (Dict.get r1 after_batch.fleet.unhealthy
        ≡ reported LoadEvent.unhealthy (last_report r1 batch) none)
    × (after_batch.applied_remote ≡ 0 + length batch)
    × ((sync batch (replica r2) (shared pool)).2 ≡ length batch)
unfolding Dict.get init
sync-merge_example = sync-merge b0 r1 batch (replica r2) (shared pool)

In-one {ℓ} : {V : Type ℓ} (a op : Op V) → In op (a ∷ []) → op ≡ a
In-one a op (here e) = e
In-one a op (there m) = elim m [ ]

one-IsCoherent {ℓ} : {V : Type ℓ} (a : Op V) → IsCoherent (a ∷ [])
one-IsCoherent a k u v m n ts origin =
    ap (λ op. op.1) (In-one a (k, u) m) ∙ sym (ap (λ op. op.1) (In-one a (k, v) n))

one-Covers {ℓ} : {V : Type ℓ} (a : Op V) → Covers (a ∷ []) (a ∷ a ∷ [])
one-Covers a op (here e) = here e
one-Covers a op (there m) = m

two-Covers {ℓ} : {V : Type ℓ} (a : Op V) → Covers (a ∷ a ∷ []) (a ∷ [])
two-Covers a op m = there m

abbrev op0 : Op Bool
op0 = (b0, record { value = true; ts = 1; origin = r1 })

sync_converges_example :
    Dict.get b0 (sync (drain0 ∷ []) (init r1) (shared pool)).0.drain.s
    ≡ Dict.get b0 (sync (digest0 ∷ drain0 ∷ []) (init r2) (shared no_backends)).0.drain.s
sync_converges_example =
    sync_converges b0 r1 r2 (drain0 ∷ []) (digest0 ∷ drain0 ∷ []) (shared pool) (shared no_backends)
      (one-IsCoherent op0) (one-Covers op0) (two-Covers op0)

sync-flags_example :
    registry_at b0 (sync (digest0 ∷ []) (replica r2) (shared pool)).1.registry
    ≡ some (record backend0 { draining = true })
unfolding init llm_inference.Cluster.Sync.sync_events Dict.get llm_inference.Base.list_beq sync
    Drain.merge Drain.apply llm_inference.Lww.Version.beats Dict.set
sync-flags_example =
    sync-flags b0 (digest0 ∷ []) (replica r2) (shared pool) pool refl pool-IsValid tt
      (new-Follows r2) refl

drain_reaches_example :
    registry_at b0
      (sync
        (polled r2 (publish_drain b0 true (replica r1) (shared pool)).2 ((r2, []) ∷ []))
        (replica r2)
        (shared pool)).1.registry
    ≡ some (record backend0 { draining = true })
unfolding init Dict.has list_beq Dict.get_or llm_inference.Lww.Version.beats Dict.get
drain_reaches_example =
    drain_reaches b0 true (replica r1) (replica r2) (shared pool) (shared pool) pool ((r2, []) ∷ [])
      apart refl refl refl pool-IsValid tt (new-Follows r2) refl

abbrev joined : ClusterCoordinator
joined = (sync (join0 ∷ []) (replica r2) (shared no_backends)).0

get-reconcile_membership_example :
    registry_at b0 (reconcile_membership joined (shared no_backends)).registry
    ≡ some (record backend0 { healthy = false })
unfolding sync llm_inference.Lww.Members.apply llm_inference.Lww.Version.beats Dict.get init
    Dict.set llm_inference.Base.list_beq
get-reconcile_membership_example =
    get-reconcile_membership b0 joined (shared no_backends) no_backends refl (refl, tt)

abbrev rejoined : BackendRegistry
rejoined = record {
  by_id = (b0, record backend0 { healthy = false }) ∷ [];
  default_model = text "m";
}

sync-not-Follows_example :
    (b : Backend) × (Dict.get b0 rejoined.by_id ≡ some b)
    × (b.draining ≡ false)
    × ¬ Follows (sync (digest0 ∷ join0 ∷ []) (replica r2) (shared no_backends)).0.drain rejoined
unfolding init Dict.get llm_inference.Cluster.Sync.sync_events llm_inference.Lww.Members.apply
    llm_inference.Lww.Version.beats sync Dict.set llm_inference.Base.list_beq Drain.merge
    Drain.apply llm_inference.Cluster.Coordinator.drop_members llm_inference.Lww.Members.removed
    llm_inference.Cluster.Coordinator.add_members llm_inference.Lww.Members.present
    llm_inference.Registry.add llm_inference.Cluster.Coordinator.set_flags
sync-not-Follows_example =
    sync-not-Follows b0 (digest0 ∷ join0 ∷ []) (replica r2) (shared no_backends) no_backends
      rejoined
      (record {
        value = record { present = true; url = text "u0"; model = text "m" };
        ts = 1;
        origin = r1;
      })
      refl tt refl refl refl refl refl refl

receive_gossip-run_example :
    receive_gossip (map to_json (run calls (replica r2) (shared pool)).2)
    ≡ (run calls (replica r2) (shared pool)).2
receive_gossip-run_example = receive_gossip-run calls (replica r2) (shared pool)
