-- ===== src/Cluster/Membership.antt =====
-- gateway/cluster/coordinator.py: `_reconcile_membership`, the registry and the membership map.
use llm_inference.Base.{
  ◌≡◌, refl, ap, ◌∙◌, inl, inr, true, false, Option, none, some, List, [], ◌∷◌, arith, ◌==◌,
  if◌then◌else◌, eq_iff, contains, Bool-cases, Option-cases,
}
use llm_inference.Base.Text.{Text, text_eq}
use llm_inference.Base.Dict
use llm_inference.Base.Dict.{Dict, IsDict, get-set, get-remove}
use llm_inference.Radix.{RadixTree}
use llm_inference.Registry.{Backend, BackendRegistry, add, remove, new_backend, model_or}
use llm_inference.Lww.Version.{Version}
use llm_inference.Lww.Exchange.{adopt_all-IsDict}
use llm_inference.Lww.Members.{Member, present, removed}
use llm_inference.Lww.Members.Laws.{removed_at, is_tombstone}
use llm_inference.Lww.Drain.{drained}
use llm_inference.Lww.Drain.Laws.{is_drained}
use llm_inference.Cluster.Event.{ClusterEvent}
use llm_inference.Cluster.Coordinator.{
  ClusterCoordinator, Shared, add_members, drop_members, reconcile_membership, reconcile_drains,
  set_flags,
}
use llm_inference.Cluster.Sync.{sync, sync_events, start_sync, finish_sync}
use llm_inference.Cluster.Folds.{member_ops, members-sync_events}
use llm_inference.Cluster.Flags.{registry_at, Follows, get-set_flags}

-- The entry of a backend that the registry is told to add.
abbrev pub admitted : Text → Text → Text → Text → Option Backend → Backend
admitted k url model default_model none =
    record (new_backend k url (model_or (some model) default_model)) { healthy = false }
admitted k url model default_model (some b) = record b { url = url }

get-add :
    (id k url model : Text) (r : BackendRegistry)
    → Dict.get k (add id url (some model) r).0.by_id ≡ (
        if id == k
        then some (admitted k url model r.default_model (Dict.get k r.by_id))
        else Dict.get k r.by_id)
unfolding add
get-add id k url model r = elim (Option-cases (Dict.get id r.by_id)) [
  | inl absent ↦
      rw (absent, add)
        (elim (Bool-cases (id == k)) [
          | inl same ↦
              let e = (eq_iff id k).0 same in
              let absent' = rw e at absent in
              ground (
                arith,
                get-set id k (admitted id url model r.default_model none) r.by_id,
                absent',
                same,
                e,
              )
          | inr other ↦
              ground
                (arith, get-set id k (admitted id url model r.default_model none) r.by_id, other)
        ])
  | inr (b, found) ↦
      rw (found, add)
        (elim (Bool-cases (id == k)) [
          | inl same ↦
              let e = (eq_iff id k).0 same in
              let found' = rw e at found in
              ground (arith, get-set id k (record b { url = url }) r.by_id, found', same)
          | inr other ↦ ground (arith, get-set id k (record b { url = url }) r.by_id, other)
        ])
]

default_model-add :
    (id url : Text) (model : Option Text) (r : BackendRegistry)
    → (add id url model r).0.default_model ≡ r.default_model
unfolding add
default_model-add id url model r = elim (Option-cases (Dict.get id r.by_id)) [
  | inl absent ↦ rw (absent, add) refl
  | inr (b, found) ↦ rw (found, add) refl
]

-- The entry of `k` after the present members have been added to a registry that had `o` there.
abbrev pub after_adds : Text → Text → Option Backend → Option (Version Member) → Option Backend
after_adds k dm o none = o
after_adds k dm o (some v) =
    if v.value.present then some (admitted k v.value.url v.value.model dm o) else o

get-add_members :
    (k : Text) (s : Dict Text (Version Member)) (r : BackendRegistry)
    → IsDict s
    → Dict.get k (add_members (present s) r).by_id
      ≡ after_adds k r.default_model (Dict.get k r.by_id) (Dict.get k s)
unfolding add_members present Dict.get
get-add_members k [] r h = refl
get-add_members k ((j, v) ∷ s) r h = elim (Bool-cases v.value.present) [
  | inr gone ↦ rw gone (get-add_members k s r h.1 ∙ ground (arith, eq_iff j k, h.0, gone))
  | inl here ↦
      let r' = (add j v.value.url (some v.value.model) r).0 in
      let rest = get-add_members k s r' h.1 in
      let dm = default_model-add j v.value.url (some v.value.model) r in
      let one = get-add j k v.value.url v.value.model r in
      rw here (elim (Bool-cases (j == k)) [
        | inl same ↦
            let e = (eq_iff j k).0 same in
            let last = rw e at h.0 in let one' = rw same at one in rw same (rest ∙ rw last one')
        | inr other ↦ let one' = rw other at one in rw other (rest ∙ rw (dm, one') refl)
      ])
]

get-drop_members :
    (k : Text) (gone : List Text) (t : RadixTree) (r : BackendRegistry)
    → Dict.get k (drop_members gone t r).1.by_id
      ≡ (if contains k gone then none else Dict.get k r.by_id)
unfolding drop_members contains remove
get-drop_members k [] t r = refl
get-drop_members k (id ∷ gone) t r =
    get-drop_members k gone _ (remove id r).0 ∙ ground (arith, get-remove id k r.by_id)

-- What the membership map says of the entry `o` of a backend.
abbrev pub settled : Text → Text → Option Backend → Option (Version Member) → Option Backend
settled k dm o none = o
settled k dm o (some v) =
    if v.value.present then some (admitted k v.value.url v.value.model dm o) else none

settle :
    (k dm : Text) (o : Option Backend) (m : Option (Version Member))
    → (if is_tombstone m then none else after_adds k dm o m) ≡ settled k dm o m
settle k dm o none = refl
settle k dm o (some v) = ground arith

-- Reconciling makes the registry what the membership map says: a removed backend is gone, a present
-- one is there with the URL of the map, a new one with the model of the map or the default one and
-- not healthy, and a backend that the map does not know stays as it was.
pub get-reconcile_membership :
    (k : Text) (c : ClusterCoordinator) (sh : Shared) (r : BackendRegistry)
    → sh.registry ≡ some r
    → IsDict c.membership.s
    → registry_at k (reconcile_membership c sh).registry
      ≡ settled k r.default_model (Dict.get k r.by_id) (Dict.get k c.membership.s)
unfolding reconcile_membership
get-reconcile_membership k c sh r e h =
    let s = c.membership.s in
    rw (e, reconcile_membership)
      (get-drop_members k (removed s) sh.tree (add_members (present s) r)
        ∙ ap (λ t. if t then none else Dict.get k (add_members (present s) r).by_id)
            (removed_at k s h)
        ∙ ap (λ o. if is_tombstone (Dict.get k s) then none else o) (get-add_members k s r h)
        ∙ settle k r.default_model (Dict.get k r.by_id) (Dict.get k s))

still_absent :
    (k : Text) (c : ClusterCoordinator) (sh : Shared) (r : BackendRegistry)
    → sh.registry ≡ some r
    → Dict.get k r.by_id ≡ none
    → (q : BackendRegistry) × ((reconcile_drains c sh).registry ≡ some q)
      × (Dict.get k q.by_id ≡ none)
unfolding reconcile_drains
still_absent k c sh r e absent =
    let dr = drained c.drain.s in
    let q = set_flags dr (Dict.values r.by_id) r in
    rw (e, reconcile_drains)
      (q, refl, get-set_flags k dr (Dict.values r.by_id) r ∙ ground (arith, absent))

fresh :
    (k : Text) (c : ClusterCoordinator) (sh : Shared) (r : BackendRegistry) (v : Version Member)
    → sh.registry ≡ some r
    → IsDict c.membership.s
    → Dict.get k r.by_id ≡ none
    → Dict.get k c.membership.s ≡ some v
    → v.value.present ≡ true
    → registry_at k (reconcile_membership c sh).registry
      ≡ some (admitted k v.value.url v.value.model r.default_model none)
fresh k c sh r v e h absent found here =
    get-reconcile_membership k c sh r e h ∙ ground (arith, absent, found, here)

-- A backend that the registry lacks, that a sync with a change of membership adds, and that the drain map
-- says is drained after that sync, is in the registry afterwards as one that is not draining: the flags
-- of the registry do not follow the map.
pub sync-not-Follows :
    (k : Text) (evs : List ClusterEvent) (c : ClusterCoordinator) (sh : Shared)
    (r r' : BackendRegistry) (v : Version Member)
    → sh.registry ≡ some r
    → IsDict c.membership.s
    → Dict.get k r.by_id ≡ none
    → (sync_events evs (start_sync c sh.tree)).members_changed ≡ true
    → Dict.get k (sync evs c sh).0.membership.s ≡ some v
    → v.value.present ≡ true
    → is_drained (Dict.get k (sync evs c sh).0.drain.s) ≡ true
    → (sync evs c sh).1.registry ≡ some r'
    → (b : Backend) × (Dict.get k r'.by_id ≡ some b)
      × (b.draining ≡ false)
      × ¬ Follows (sync evs c sh).0.drain r'
unfolding sync finish_sync
sync-not-Follows k evs c sh r r' v e h absent changed found here says done =
    let s = sync_events evs (start_sync c sh.tree) in
    let looped : Shared = record sh { tree = s.tree } in
    let distinct : IsDict s.coord.membership.s =
      rw (members-sync_events evs (start_sync c sh.tree))
        (adopt_all-IsDict c.membership.s (member_ops evs) h) in
    elim (Bool-cases s.drains_changed) [
      | inl drains ↦
          let (q, eq, none_q) = still_absent k s.coord looped r e absent in
          let at_k =
            fresh k s.coord (reconcile_drains s.coord looped) q v eq distinct none_q found here in
          let done' = rw (changed, drains) at done in
          let b' = rw done' at at_k in
          (
            _,
            b',
            refl,
            λ follows. let f = follows.at_key k _ b' in absurd (ground (arith, f, says)),
          )
      | inr quiet ↦
          let at_k = fresh k s.coord looped r v e distinct absent found here in
          let done' = rw (changed, quiet) at done in
          let b' = rw done' at at_k in
          (
            _,
            b',
            refl,
            λ follows. let f = follows.at_key k _ b' in absurd (ground (arith, f, says)),
          )
    ]
