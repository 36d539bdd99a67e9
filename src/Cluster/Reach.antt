-- ===== src/Cluster/Reach.antt =====
-- gateway/cluster/coordinator.py and bus.py: a drain from its publication on one replica over the bus
-- in memory to the registry of another.
use llm_inference.Base.{
  ◌+◌, ◌≡◌, ◌≢◌, refl, ap, ◌∙◌, Bool, true, false, some, List, [], ◌∷◌, map, arith, ◌==◌, eq_iff,
  Bool-cases,
}
use llm_inference.Base.Text.{Text, text_eq}
use llm_inference.Base.Dict
use llm_inference.Base.Dict.{Dict, IsDict, get-set}
use llm_inference.Bus.{Event, drain}
use llm_inference.Bus.Delivery.{publish_all, drain-publish_all}
use llm_inference.Radix.{RadixTree}
use llm_inference.Registry.{BackendRegistry}
use llm_inference.Registry.Laws.{IsValid, drained_at}
use llm_inference.Lww.Version.{Version, beats, adopt}
use llm_inference.Lww.Join.{adopt_all}
use llm_inference.Lww.Drain
use llm_inference.Lww.Drain.Laws.{is_drained}
use llm_inference.Cluster.Event.{ClusterEvent, DrainEvent, drain_event, origin_of}
use llm_inference.Cluster.Coordinator.{ClusterCoordinator, Shared, publish_drain}
use llm_inference.Cluster.Sync.{sync, sync_events, count_event, dispatch_event, start_sync}
use llm_inference.Cluster.Folds.{sync-folds}
use llm_inference.Cluster.Flags.{Follows, registry_at, sync-flags}

abbrev pub on_bus : ClusterEvent → Event ClusterEvent
on_bus e = record { origin = origin_of e; payload = e }

abbrev pub payload_of : Event ClusterEvent → ClusterEvent
payload_of e = e.payload

-- What the replica polls after the events of another have been published.
abbrev pub polled :
    Text → List ClusterEvent → Dict Text (List (Event ClusterEvent)) → List ClusterEvent
polled rid evs m = map payload_of (drain rid (publish_all (map on_bus evs) m)).1

polled_one :
    (rid : Text) (e : ClusterEvent) (m : Dict Text (List (Event ClusterEvent)))
    → Dict.has rid m ≡ true
    → Dict.get_or rid [] m ≡ []
    → origin_of e ≢ rid
    → polled rid (e ∷ []) m ≡ e ∷ []
polled_one rid e m here empty other =
    let got = (drain-publish_all rid (on_bus e ∷ []) m here).0 in
    let apart : (rid == origin_of e) ≡ false =
      ground (arith, eq_iff rid (origin_of e), Bool-cases (rid == origin_of e)) in
    ap (map payload_of) (rw (empty, apart) at got)

adopted :
    (id : Text) (v : Version Bool) (d : Dict Text (Version Bool))
    → beats v (Dict.get id d) ≡ true
    → Dict.get id (adopt_all d ((id, v) ∷ [])) ≡ some v
unfolding adopt_all adopt
adopted id v d wins = ground (arith, wins, get-set id id v d, eq_iff id id)

quiet_drain :
    (ev : DrainEvent) (c : ClusterCoordinator) (t : RadixTree)
    → (sync_events (drain_event ev ∷ []) (start_sync c t)).members_changed ≡ false
unfolding sync_events dispatch_event count_event
quiet_drain ev c t = refl

-- The sync of one drain event that the map adopts.
sync_drain :
    (ev : DrainEvent) (c : ClusterCoordinator) (sh : Shared) (r : BackendRegistry)
    → sh.registry ≡ some r
    → IsValid r
    → IsDict c.drain.s
    → Follows c.drain r
    → beats
        (record { value = ev.draining; ts = ev.ts; origin = ev.origin })
        (Dict.get ev.backend_id c.drain.s)
      ≡ true
    → registry_at ev.backend_id (sync (drain_event ev ∷ []) c sh).1.registry
      ≡ drained_at ev.draining (Dict.get ev.backend_id r.by_id)
sync_drain ev c sh r e v h f wins =
    let version : Version Bool = record { value = ev.draining; ts = ev.ts; origin = ev.origin } in
    let flags =
      sync-flags ev.backend_id (drain_event ev ∷ []) c sh r e v h f (quiet_drain ev c sh.tree) in
    let merged : Dict.get ev.backend_id (sync (drain_event ev ∷ []) c sh).0.drain.s ≡ some version =
      ap (Dict.get ev.backend_id) (sync-folds (drain_event ev ∷ []) c sh).0
      ∙ adopted ev.backend_id version c.drain.s wins in
    flags ∙ ap (λ o. drained_at (is_drained o) (Dict.get ev.backend_id r.by_id)) merged

-- A drain or undrain that one replica publishes sets the flag of the backend in the registry of every
-- other replica that is on the bus with an empty inbox, as soon as that replica has polled and
-- synced, if its flags followed its drain map before and the map has no newer version of the backend.
pub drain_reaches :
    (id : Text) (draining : Bool) (a b : ClusterCoordinator) (sh th : Shared) (r : BackendRegistry)
    (m : Dict Text (List (Event ClusterEvent)))
    → a.replica_id ≢ b.replica_id
    → Dict.has b.replica_id m ≡ true
    → Dict.get_or b.replica_id [] m ≡ []
    → th.registry ≡ some r
    → IsValid r
    → IsDict b.drain.s
    → Follows b.drain r
    → beats
        (record { value = draining; ts = a.drain.clock + 1; origin = a.replica_id })
        (Dict.get id b.drain.s)
      ≡ true
    → registry_at id
        (sync (polled b.replica_id (publish_drain id draining a sh).2 m) b th).1.registry
      ≡ drained_at draining (Dict.get id r.by_id)
unfolding publish_drain Drain.set_local origin_of
drain_reaches id draining a b sh th r m ne here empty e v h f wins =
    let ev : DrainEvent = record {
      origin = a.replica_id;
      seq = a.seq + 1;
      ts = a.drain.clock + 1;
      backend_id = id;
      draining = draining;
    } in
    rw (polled_one b.replica_id (drain_event ev) m here empty ne)
      (sync_drain ev b th r e v h f wins)
