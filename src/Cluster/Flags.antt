-- ===== src/Cluster/Flags.antt =====
-- gateway/cluster/coordinator.py: the draining flags of the registry and the replicated drain map.
use llm_inference.Base.{
  ◌+◌, ◌≡◌, refl, sym, ap, ◌∙◌, inl, inr, Bool, true, false, ◌||◌, Option, none, some, List, [],
  ◌∷◌, arith, ◌==◌, if◌then◌else◌, eq_iff, contains, Bool-cases, Option-cases,
}
use llm_inference.Base.Text.{Text, text_eq}
use llm_inference.Base.Dict
use llm_inference.Base.Dict.{Dict, IsDict, get-set, has-get, set-IsDict}
use llm_inference.Registry.{Backend, BackendRegistry, set_draining}
use llm_inference.Registry.Laws.{
  IsValid, IsNamed, get-set_draining, get-set_draining_same, drained_at,
}
use llm_inference.Lww.Version.{Version}
use llm_inference.Lww.Exchange.{adopt_all-IsDict}
use llm_inference.Lww.Drain
use llm_inference.Lww.Drain.{DrainState, drained}
use llm_inference.Lww.Drain.Laws.{
  flag, flag-merge_quiet, flag-apply_quiet, is_drained, contains-drained,
}
use llm_inference.Cluster.Event.{
  ClusterEvent, prefix_event, load_event, drain_event, drain_digest, member_event, member_digest,
}
use llm_inference.Cluster.Coordinator.{
  ClusterCoordinator, Shared, set_flags, reconcile_drains, publish_drain,
}
use llm_inference.Cluster.Sync.{
  Syncing, sync, sync_events, count_event, dispatch_event, start_sync, finish_sync,
}
use llm_inference.Cluster.Folds.{drain_ops, drain-sync_events}

-- The backends of a list, by id.
abbrev pub ids : List Backend → List Text
ids [] = []
ids (b ∷ bs) = b.id ∷ ids bs

get-set_draining_all :
    (id k : Text) (draining : Bool) (r : BackendRegistry)
    → Dict.get k (set_draining id draining r).0.by_id
      ≡ (if id == k then drained_at draining (Dict.get k r.by_id) else Dict.get k r.by_id)
get-set_draining_all id k draining r = elim (Bool-cases (id == k)) [
  | inl same ↦
      let e = (eq_iff id k).0 same in rw (same, sym e) (get-set_draining_same id draining r)
  | inr other ↦ rw other (get-set_draining id k draining r (ground (arith, eq_iff id k)))
]

-- One step: the entry `y` that becomes `x` where the backend is the one, and then `z` by the rest.
flags_step :
    (same later d d' : Bool) (x y z : Option Backend)
    → (same ≡ true → d' ≡ d)
    → z ≡ (if later then drained_at d x else x)
    → x ≡ (if same then drained_at d' y else y)
    → z ≡ (if same || later then drained_at d y else y)
flags_step true true d d' x none z e p q = ground arith
flags_step true false d d' x none z e p q = ground arith
flags_step true true d d' x (some b) z e p q = p ∙ ap (drained_at d) q ∙ refl
flags_step true false d d' x (some b) z e p q = p ∙ q ∙ ap (λ f. drained_at f (some b)) (e refl)
flags_step false true d d' x y z e p q = p ∙ ap (drained_at d) q
flags_step false false d d' x y z e p q = p ∙ q

pub get-set_flags :
    (k : Text) (dr : List Text) (bs : List Backend) (r : BackendRegistry)
    → Dict.get k (set_flags dr bs r).by_id ≡ (
        if contains k (ids bs)
        then drained_at (contains k dr) (Dict.get k r.by_id)
        else Dict.get k r.by_id)
unfolding set_flags contains
get-set_flags k dr [] r = refl
get-set_flags k dr (b ∷ bs) r =
    flags_step (b.id == k) (contains k (ids bs)) (contains k dr) (contains b.id dr) _
      (Dict.get k r.by_id) _ (λ e. ap (λ i. contains i dr) ((eq_iff b.id k).0 e))
      (get-set_flags k dr bs (set_draining b.id (contains b.id dr) r).0)
      (get-set_draining_all b.id k (contains b.id dr) r)

contains-ids :
    (k : Text) (d : Dict Text Backend) → IsNamed d → contains k (ids (Dict.values d)) ≡ Dict.has k d
unfolding contains Dict.has
contains-ids k [] h = refl
contains-ids k ((j, b) ∷ d) h = ground (arith, eq_iff j k, eq_iff b.id k, contains-ids k d h.1)

absent_or :
    (k : Text) (d : Dict Text Backend) (f : Bool)
    → (if Dict.has k d then drained_at f (Dict.get k d) else Dict.get k d)
      ≡ drained_at f (Dict.get k d)
absent_or k d f = elim (Option-cases (Dict.get k d)) [
  | inl e ↦ ground (arith, has-get k d, e)
  | inr (b, e) ↦ ground (arith, has-get k d, e)
]

-- In every entry of the registry the flag becomes what the drain map says of the backend.
pub get-reconciled :
    (k : Text) (st : DrainState) (r : BackendRegistry)
    → IsValid r
    → IsDict st.s
    → Dict.get k (set_flags (drained st.s) (Dict.values r.by_id) r).by_id
      ≡ drained_at (is_drained (Dict.get k st.s)) (Dict.get k r.by_id)
get-reconciled k st r v h =
    get-set_flags k (drained st.s) (Dict.values r.by_id) r
    ∙ ap
        (λ c.
          if c
          then drained_at (contains k (drained st.s)) (Dict.get k r.by_id)
          else Dict.get k r.by_id)
        (contains-ids k r.by_id v.named)
    ∙ absent_or k r.by_id (contains k (drained st.s))
    ∙ ap (λ f. drained_at f (Dict.get k r.by_id)) (contains-drained k st.s h)

abbrev pub registry_at : Text → Option BackendRegistry → Option Backend
registry_at k none = none
registry_at k (some r) = Dict.get k r.by_id

-- Every flag of the registry is what the drain map says.
pub record Follows (st : DrainState) (r : BackendRegistry) : Type 0 where
  pub at_key :
      (k : Text) (b : Backend)
      → Dict.get k r.by_id ≡ some b
      → b.draining ≡ is_drained (Dict.get k st.s)

-- A drain or undrain on a replica sets the flag of the backend in the registry of that replica, gives
-- every other backend the flag of the drain map, and changes nothing else in the registry.
pub publish_drain-flags :
    (id k : Text) (draining : Bool) (c : ClusterCoordinator) (sh : Shared) (r : BackendRegistry)
    → sh.registry ≡ some r
    → IsValid r
    → IsDict c.drain.s
    → registry_at k (publish_drain id draining c sh).1.registry
      ≡ drained_at
          (if id == k then draining else is_drained (Dict.get k c.drain.s))
          (Dict.get k r.by_id)
unfolding publish_drain reconcile_drains Drain.set_local
publish_drain-flags id k draining c sh r e v h =
    let version : Version Bool = record {
      value = draining;
      ts = c.drain.clock + 1;
      origin = c.replica_id;
    } in
    let st : DrainState = record { s = Dict.set id version c.drain.s; clock = c.drain.clock + 1 } in
    rw (e, reconcile_drains)
      (get-reconciled k st r v (set-IsDict id version c.drain.s h)
        ∙ ap (λ f. drained_at f (Dict.get k r.by_id))
            (ground (arith, get-set id k version c.drain.s)))

-- A step of the loop that leaves `drains_changed` false had it false and changed no flag.
abbrev Quiet : Text → Syncing → Syncing → Type 0
Quiet k s s' =
    s'.drains_changed ≡ false
    → (s.drains_changed ≡ false) × (flag k s'.coord.drain ≡ flag k s.coord.drain)

dispatch_event-Quiet : (k : Text) (e : ClusterEvent) (s : Syncing) → Quiet k s (dispatch_event e s)
unfolding dispatch_event
dispatch_event-Quiet k (prefix_event e) s q = (q, refl)
dispatch_event-Quiet k (load_event e) s q = (q, refl)
dispatch_event-Quiet k (member_event e) s q = (q, refl)
dispatch_event-Quiet k (member_digest e) s q = (q, refl)
dispatch_event-Quiet k (drain_event e) s q =
    let v : Version Bool = record { value = e.draining; ts = e.ts; origin = e.origin } in
    (ground (arith, q), flag-apply_quiet e.backend_id k v s.coord.drain (ground (arith, q)))
dispatch_event-Quiet k (drain_digest e) s q =
    (ground (arith, q), flag-merge_quiet k e.entries s.coord.drain (ground (arith, q)))

sync_events-Quiet :
    (k : Text) (evs : List ClusterEvent) (s : Syncing) → Quiet k s (sync_events evs s)
unfolding sync_events count_event
sync_events-Quiet k [] s q = (q, refl)
sync_events-Quiet k (e ∷ evs) s q =
    let rest = sync_events-Quiet k evs (count_event (dispatch_event e s)) q in
    let one = dispatch_event-Quiet k e s rest.0 in (one.0, rest.1 ∙ one.1)

flag-is_drained :
    (k : Text) (a b : DrainState)
    → flag k a ≡ flag k b
    → is_drained (Dict.get k a.s) ≡ is_drained (Dict.get k b.s)
flag-is_drained k a b h = ground (arith, h)

drained_at_same :
    (f : Bool) (o : Option Backend)
    → ((b : Backend) → o ≡ some b → b.draining ≡ f)
    → o ≡ drained_at f o
drained_at_same f none h = refl
drained_at_same f (some b) h = rw⁻¹ (h b refl) refl

-- If the flags of the registry follow the drain map before a sync, and the sync reports no change of
-- membership, they follow the new drain map after it, and nothing else in the registry has changed.
pub sync-flags :
    (k : Text) (evs : List ClusterEvent) (c : ClusterCoordinator) (sh : Shared)
    (r : BackendRegistry)
    → sh.registry ≡ some r
    → IsValid r
    → IsDict c.drain.s
    → Follows c.drain r
    → (sync_events evs (start_sync c sh.tree)).members_changed ≡ false
    → registry_at k (sync evs c sh).1.registry
      ≡ drained_at (is_drained (Dict.get k (sync evs c sh).0.drain.s)) (Dict.get k r.by_id)
unfolding sync finish_sync reconcile_drains
sync-flags k evs c sh r e v h f quiet =
    let s = sync_events evs (start_sync c sh.tree) in
    let distinct : IsDict s.coord.drain.s =
      rw (drain-sync_events evs (start_sync c sh.tree))
        (adopt_all-IsDict c.drain.s (drain_ops evs) h) in
    elim (Bool-cases s.drains_changed) [
      | inl changed ↦
          rw (quiet, changed, e, reconcile_drains) (get-reconciled k s.coord.drain r v distinct)
      | inr same ↦
          let kept = (sync_events-Quiet k evs (start_sync c sh.tree) same).1 in
          rw (quiet, same, e)
            (drained_at_same (is_drained (Dict.get k c.drain.s)) (Dict.get k r.by_id) (f.at_key k)
              ∙ ap (λ d. drained_at d (Dict.get k r.by_id))
                  (flag-is_drained k c.drain s.coord.drain (sym kept)))
    ]
