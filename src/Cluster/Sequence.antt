-- ===== src/Cluster/Sequence.antt =====
-- gateway/cluster/coordinator.py: the numbers of the events that one replica publishes.
use llm_inference.Base.{
  ℕ, zero, suc, ◌+◌, ◌≡◌, refl, Bool, List, [], ◌∷◌, ◌++◌, arith, length, length-append, ◌∙◌,
}
use llm_inference.Base.Text.{Text}
use llm_inference.Base.Dict.{Dict}
use llm_inference.Cluster.Event.{ClusterEvent, origin_of, seq_of}
use llm_inference.Cluster.Coordinator.{
  ClusterCoordinator, Shared, publish_insert, publish_remove, publish_load, publish_drain,
  publish_member_add, publish_member_remove, publish_membership_digest, publish_drain_digest,
  publish_unless_empty,
}
use llm_inference.Cluster.Sync.{sync, Syncing, dispatch_event, sync_events, count_event, start_sync}

-- A call of one of the methods, with the events that the bus has where it is `sync`.
pub data Call : Type 0 where
  insert : List ℕ → Text → Call
  remove : Text → Call
  load : Dict Text ℕ → List Text → Call
  drain : Text → Bool → Call
  member_add : Text → Text → Text → Call
  member_remove : Text → Call
  membership_digest drain_digest : Call
  receive : List ClusterEvent → Call

abbrev pub beside :
    Shared
    → ClusterCoordinator × List ClusterEvent
    → ClusterCoordinator × Shared × List ClusterEvent
beside sh (c, evs) = (c, sh, evs)

unfoldable pub call :
    Call → ClusterCoordinator → Shared → ClusterCoordinator × Shared × List ClusterEvent
call (insert hashes id) c sh = beside sh (publish_insert hashes id c)
call (remove id) c sh = beside sh (publish_remove id c)
call (load inflight unhealthy) c sh = beside sh (publish_load inflight unhealthy c)
call (drain id draining) c sh = publish_drain id draining c sh
call (member_add id url model) c sh = beside sh (publish_member_add id url model c)
call (member_remove id) c sh = beside sh (publish_member_remove id c)
call membership_digest c sh = beside sh (publish_membership_digest c)
call drain_digest c sh = beside sh (publish_drain_digest c)
call (receive evs) c sh = let (c', sh', n) = sync evs c sh in (c', sh', [])

unfoldable pub run :
    List Call → ClusterCoordinator → Shared → ClusterCoordinator × Shared × List ClusterEvent
unfolding call
run [] c sh = (c, sh, [])
run (m ∷ ms) c sh =
    let (c', sh', evs) = call m c sh in
    let (c'', sh'', rest) = run ms c' sh' in (c'', sh'', evs ++ rest)

-- The events are a replica's own, numbered from one more than `n`.
abbrev pub Numbered : Text → ℕ → List ClusterEvent → Type 0
Numbered rid n [] = Unit
Numbered rid n (e ∷ es) = (origin_of e ≡ rid) × (seq_of e ≡ n + 1) × Numbered rid (n + 1) es

-- What a step that gives `evs` to the bus does to the counters.
pub record Counts (c c' : ClusterCoordinator) (evs : List ClusterEvent) : Type 0 where
  pub same_id : c'.replica_id ≡ c.replica_id
  pub numbers : Numbered c.replica_id c.seq evs
  pub seq_after : c'.seq ≡ c.seq + length evs
  pub published_after : c'.published ≡ c.published + length evs

one_event :
    (c c' : ClusterCoordinator) (e : ClusterEvent)
    → c'.replica_id ≡ c.replica_id
    → origin_of e ≡ c.replica_id
    → seq_of e ≡ c.seq + 1
    → c'.seq ≡ c.seq + 1
    → c'.published ≡ c.published + 1
    → Counts c c' (e ∷ [])
one_event c c' e id o s q p = record {
  same_id = id;
  numbers = (o, s, tt);
  seq_after = ground arith;
  published_after = ground arith;
}

no_event :
    (c c' : ClusterCoordinator)
    → c'.replica_id ≡ c.replica_id
    → c'.seq ≡ c.seq
    → c'.published ≡ c.published
    → Counts c c' []
no_event c c' id q p = record {
  same_id = id;
  numbers = tt;
  seq_after = ground arith;
  published_after = ground arith;
}

-- The fields that `sync` leaves alone.
abbrev Steady : ClusterCoordinator → ClusterCoordinator → Type 0
Steady c c' = (c'.replica_id ≡ c.replica_id) × (c'.seq ≡ c.seq) × (c'.published ≡ c.published)

dispatch_event-Steady : (e : ClusterEvent) (s : Syncing) → Steady s.coord (dispatch_event e s).coord
unfolding dispatch_event
dispatch_event-Steady (ClusterEvent.prefix_event e) s = (refl, refl, refl)
dispatch_event-Steady (ClusterEvent.load_event e) s = (refl, refl, refl)
dispatch_event-Steady (ClusterEvent.drain_event e) s = (refl, refl, refl)
dispatch_event-Steady (ClusterEvent.drain_digest e) s = (refl, refl, refl)
dispatch_event-Steady (ClusterEvent.member_event e) s = (refl, refl, refl)
dispatch_event-Steady (ClusterEvent.member_digest e) s = (refl, refl, refl)

sync_events-Steady :
    (evs : List ClusterEvent) (s : Syncing) → Steady s.coord (sync_events evs s).coord
unfolding sync_events count_event
sync_events-Steady [] s = (refl, refl, refl)
sync_events-Steady (e ∷ evs) s =
    let one = dispatch_event-Steady e s in
    let rest = sync_events-Steady evs (count_event (dispatch_event e s)) in
    (rest.0 ∙ one.0, rest.1 ∙ one.1, rest.2 ∙ one.2)

digest-Counts :
    (n : ℕ) (c : ClusterCoordinator) (e : ClusterEvent)
    → origin_of e ≡ c.replica_id
    → seq_of e ≡ c.seq + 1
    → Counts c (publish_unless_empty n e c).0 (publish_unless_empty n e c).1
digest-Counts zero c e o s = no_event c c refl refl refl
digest-Counts (suc n) c e o s = one_event c _ e refl o s refl refl

call-Counts :
    (m : Call) (c : ClusterCoordinator) (sh : Shared) → Counts c (call m c sh).0 (call m c sh).2
unfolding call publish_insert publish_remove publish_load publish_drain publish_member_add
    publish_member_remove publish_membership_digest publish_drain_digest sync origin_of seq_of
call-Counts (insert [] id) c sh = no_event c c refl refl refl
call-Counts (insert (h ∷ hashes) id) c sh = one_event c _ _ refl refl refl refl refl
call-Counts (remove id) c sh = one_event c _ _ refl refl refl refl refl
call-Counts (load inflight unhealthy) c sh = one_event c _ _ refl refl refl refl refl
call-Counts (drain id draining) c sh = one_event c _ _ refl refl refl refl refl
call-Counts (member_add id url model) c sh = one_event c _ _ refl refl refl refl refl
call-Counts (member_remove id) c sh = one_event c _ _ refl refl refl refl refl
call-Counts membership_digest c sh = digest-Counts (length c.membership.s) c _ refl refl
call-Counts drain_digest c sh = digest-Counts (length c.drain.s) c _ refl refl
call-Counts (receive evs) c sh =
    let kept = sync_events-Steady evs (start_sync c sh.tree) in no_event c _ kept.0 kept.1 kept.2

Numbered-append :
    (rid : Text) (n : ℕ) (xs ys : List ClusterEvent)
    → Numbered rid n xs
    → Numbered rid (n + length xs) ys
    → Numbered rid n (xs ++ ys)
Numbered-append rid n [] ys hx hy = let e : n + 0 ≡ n = omega arith in rw e at hy
Numbered-append rid n (x ∷ xs) ys hx hy =
    let e : n + suc (length xs) ≡ n + 1 + length xs = omega arith in
    (hx.0, hx.1, Numbered-append rid (n + 1) xs ys hx.2 (rw e at hy))

-- Whatever methods of a coordinator are called, in any order, the events that it has given to the bus
-- carry its replica id and are numbered one by one from its sequence number on, without a gap or a
-- repetition; its sequence number and its count of published events have grown by their number.
pub run-Counts :
    (ms : List Call) (c : ClusterCoordinator) (sh : Shared)
    → Counts c (run ms c sh).0 (run ms c sh).2
unfolding run
run-Counts [] c sh = no_event c c refl refl refl
run-Counts (m ∷ ms) c sh =
    let one = call-Counts m c sh in
    let (c', sh', evs) = call m c sh in
    let rest = run-Counts ms c' sh' in
    let more : Numbered c.replica_id (c.seq + length evs) (run ms c' sh').2 =
      rw (one.same_id, one.seq_after) at rest.numbers in
    record {
      same_id = rest.same_id ∙ one.same_id;
      numbers = Numbered-append c.replica_id c.seq evs (run ms c' sh').2 one.numbers more;
      seq_after = omega (arith, rest.seq_after, one.seq_after, length-append evs (run ms c' sh').2);
      published_after =
          omega
            (arith, rest.published_after, one.published_after, length-append evs (run ms c' sh').2);
    }
