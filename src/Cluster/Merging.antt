-- ===== src/Cluster/Merging.antt =====
-- gateway/cluster/coordinator.py: what a batch of events leaves in the replica's maps.
use llm_inference.Base.{
  ◌+◌, ◌≡◌, ◌<◌, ◌⊎◌, false, Option, none, some, if◌then◌else◌, Bool-cases, inl, inr, refl, sym, ap,
  ◌∙◌, List, [], ◌∷◌, arith, length, ◌==◌,
}
use llm_inference.Base.Text.{Text, text_eq, text_ltb}
use llm_inference.Base.Dict
use llm_inference.Base.Dict.{Dict, get-set}
use llm_inference.Load.Fleet
use llm_inference.Load.Fleet.{FleetLoadView, LoadEvent}
use llm_inference.Lww.Join.{
  Op, In, adopt_all, get-adopt_all, winner_source, winner_top, winner_top-In, winner_some,
  winner-none-In,
}
use llm_inference.Lww.Converge.{IsCoherent, Covers, adopt_all_converges}
use llm_inference.Lww.Version.{Version, newer}
use llm_inference.Cluster.Event.{
  ClusterEvent, prefix_event, load_event, drain_event, drain_digest, member_event, member_digest,
}
use llm_inference.Cluster.Coordinator.{ClusterCoordinator, Shared, init}
use llm_inference.Cluster.Sync.{sync}
use llm_inference.Cluster.Folds.{drain_ops, member_ops, snapshots, sync-folds}

-- `u` has a lower timestamp than `w`, or the same one and a replica id that is not greater.
abbrev pub IsUpTo : {V : Type 0} → Version V → Version V → Type 0
IsUpTo u w = (u.ts < w.ts) ⊎ ((u.ts ≡ w.ts) × (text_ltb w.origin u.origin ≡ false))

-- What is left of the version that a map held of a backend and of the operations on it: one of these,
-- which all others are up to; nothing, if there were none.
pub record IsWinner {V : Type 0} (k : Text) (held : Option (Version V)) (ops : List (Op V))
    (left : Option (Version V)) : Type 0 where
  pub source : (w : Version V) → left ≡ some w → (held ≡ some w) ⊎ In (k, w) ops
  pub over_held : (u w : Version V) → left ≡ some w → held ≡ some u → IsUpTo u w
  pub over_ops : (u w : Version V) → left ≡ some w → In (k, u) ops → IsUpTo u w
  pub empty : left ≡ none → (held ≡ none) × ((u : Version V) → ¬ In (k, u) ops)

up_to : {V : Type 0} (u w : Version V) → newer u w ≡ false → IsUpTo u w
unfolding newer
up_to u w h = ground arith

adopt_all-IsWinner :
    {V : Type 0} (k : Text) (d : Dict Text (Version V)) (ops : List (Op V))
    → IsWinner k (Dict.get k d) ops (Dict.get k (adopt_all d ops))
adopt_all-IsWinner k d ops = rw (get-adopt_all k ops d) (record {
  source = λ w e. winner_source k ops (Dict.get k d) w e;
  over_held =
      λ u w e held. let top = winner_top k ops (Dict.get k d) w e in up_to u w (rw held at top);
  over_ops = λ u w e m. up_to u w (winner_top-In k ops (Dict.get k d) u w e m);
  empty = λ e. (winner_some k ops (Dict.get k d) e, λ u. winner-none-In k ops (Dict.get k d) u e);
})

-- The last load snapshot of a replica in a batch.
abbrev pub report_of : Text → ClusterEvent → Option LoadEvent
report_of o (load_event e) = if e.origin == o then some e else none
report_of o (prefix_event e) = none
report_of o (drain_event e) = none
report_of o (drain_digest e) = none
report_of o (member_event e) = none
report_of o (member_digest e) = none

abbrev pub last_report : Text → List ClusterEvent → Option LoadEvent
last_report o [] = none
last_report o (e ∷ es) = elim (last_report o es) [ none ↦ report_of o e | some x ↦ some x ]

-- What the last snapshot says, and without one what was known before.
abbrev pub reported : {A : Type 0} → (LoadEvent → A) → Option LoadEvent → Option A → Option A
reported f none old = old
reported f (some e) old = some (f e)

reported-first :
    {A : Type 0} (f : LoadEvent → A) (o : Text) (e : LoadEvent) (x : Option LoadEvent)
    (old : Option A)
    → reported f x (if e.origin == o then some (f e) else old)
      ≡ reported f (elim x [ none ↦ report_of o (load_event e) | some y ↦ some y ]) old
reported-first f o e none old = elim (Bool-cases (e.origin == o)) [
  | inl same ↦ rw same refl
  | inr other ↦ rw other refl
]
reported-first f o e (some y) old = refl

reported-none :
    {A : Type 0} (f : LoadEvent → A) (x : Option LoadEvent) (old : Option A)
    → reported f x old ≡ reported f (elim x [ none ↦ none | some y ↦ some y ]) old
reported-none f none old = refl
reported-none f (some y) old = refl

get-snapshots :
    (o : Text) (evs : List ClusterEvent) (v : FleetLoadView)
    → (Dict.get o (snapshots evs v).inflight
        ≡ reported LoadEvent.inflight (last_report o evs) (Dict.get o v.inflight))
      × (Dict.get o (snapshots evs v).unhealthy
          ≡ reported LoadEvent.unhealthy (last_report o evs) (Dict.get o v.unhealthy))
unfolding Fleet.apply
get-snapshots o [] v = (refl, refl)
get-snapshots o (load_event e ∷ evs) v =
    let rest = get-snapshots o evs (Fleet.apply e v) in
    (
      rest.0
          ∙ ap (reported LoadEvent.inflight (last_report o evs))
              (get-set e.origin o e.inflight v.inflight)
          ∙ reported-first LoadEvent.inflight o e (last_report o evs) (Dict.get o v.inflight),
      rest.1
          ∙ ap (reported LoadEvent.unhealthy (last_report o evs))
              (get-set e.origin o e.unhealthy v.unhealthy)
          ∙ reported-first LoadEvent.unhealthy o e (last_report o evs) (Dict.get o v.unhealthy),
    )
get-snapshots o (prefix_event e ∷ evs) v =
    let rest = get-snapshots o evs v in
    (
      rest.0 ∙ reported-none LoadEvent.inflight (last_report o evs) _,
      rest.1 ∙ reported-none LoadEvent.unhealthy (last_report o evs) _,
    )
get-snapshots o (drain_event e ∷ evs) v =
    let rest = get-snapshots o evs v in
    (
      rest.0 ∙ reported-none LoadEvent.inflight (last_report o evs) _,
      rest.1 ∙ reported-none LoadEvent.unhealthy (last_report o evs) _,
    )
get-snapshots o (drain_digest e ∷ evs) v =
    let rest = get-snapshots o evs v in
    (
      rest.0 ∙ reported-none LoadEvent.inflight (last_report o evs) _,
      rest.1 ∙ reported-none LoadEvent.unhealthy (last_report o evs) _,
    )
get-snapshots o (member_event e ∷ evs) v =
    let rest = get-snapshots o evs v in
    (
      rest.0 ∙ reported-none LoadEvent.inflight (last_report o evs) _,
      rest.1 ∙ reported-none LoadEvent.unhealthy (last_report o evs) _,
    )
get-snapshots o (member_digest e ∷ evs) v =
    let rest = get-snapshots o evs v in
    (
      rest.0 ∙ reported-none LoadEvent.inflight (last_report o evs) _,
      rest.1 ∙ reported-none LoadEvent.unhealthy (last_report o evs) _,
    )

-- A sync leaves of every backend, in each of the two last-writer-wins maps, a version that it held or
-- that an operation or a digest entry of the batch carried, and that no other one of these is after,
-- by timestamp and then by replica id; it leaves nothing only where there was none. Of every peer the
-- fleet view has the last snapshot of the batch, or else the one it had. Every
-- event is counted once.
pub sync-merge :
    (k o : Text) (evs : List ClusterEvent) (c : ClusterCoordinator) (sh : Shared)
    → let c' = (sync evs c sh).0 in
      IsWinner k (Dict.get k c.drain.s) (drain_ops evs) (Dict.get k c'.drain.s)
      × IsWinner k (Dict.get k c.membership.s) (member_ops evs) (Dict.get k c'.membership.s)
      × (Dict.get o c'.fleet.inflight
          ≡ reported LoadEvent.inflight (last_report o evs) (Dict.get o c.fleet.inflight))
      × (Dict.get o c'.fleet.unhealthy
          ≡ reported LoadEvent.unhealthy (last_report o evs) (Dict.get o c.fleet.unhealthy))
      × (c'.applied_remote ≡ c.applied_remote + length evs)
      × ((sync evs c sh).2 ≡ length evs)
sync-merge k o evs c sh =
    let (drain, members, fleet, applied, count) = sync-folds evs c sh in
    (
      rw drain (adopt_all-IsWinner k c.drain.s (drain_ops evs)),
      rw members (adopt_all-IsWinner k c.membership.s (member_ops evs)),
      rw fleet (get-snapshots o evs c.fleet).0,
      rw fleet (get-snapshots o evs c.fleet).1,
      applied,
      count,
    )

-- Two new replicas whose syncs were given the same drain operations, in events and digests of any
-- order, number and repetition, hold the same flag, timestamp and owner of every backend, if a
-- timestamp and a replica id name one operation of a backend.
pub sync_converges :
    (k a b : Text) (xs ys : List ClusterEvent) (sh th : Shared)
    → IsCoherent (drain_ops xs)
    → Covers (drain_ops xs) (drain_ops ys)
    → Covers (drain_ops ys) (drain_ops xs)
    → Dict.get k (sync xs (init a) sh).0.drain.s ≡ Dict.get k (sync ys (init b) th).0.drain.s
unfolding init
sync_converges k a b xs ys sh th coherent xy yx =
    ap (Dict.get k) (sync-folds xs (init a) sh).0
    ∙ adopt_all_converges k (drain_ops xs) (drain_ops ys) coherent xy yx
    ∙ sym (ap (Dict.get k) (sync-folds ys (init b) th).0)
