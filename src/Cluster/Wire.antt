-- ===== src/Cluster/Wire.antt =====
-- gateway/cluster/events.py and coordinator.py: events from the replica that publishes them to the
-- peers that decode them, and `receive_gossip`.
use llm_inference.Base.{
  ℕ, zero, suc, ◌≡◌, refl, sym, ap, ◌∙◌, ◌⊎◌, inl, inr, Bool, true, false, none, some, List, [],
  ◌∷◌, ◌++◌, if◌then◌else◌, ltb, All, All-append, map, length, list_beq,
}
use llm_inference.Base.Text.{Text, text_eq}
use llm_inference.Cluster.Event.{
  ClusterEvent, prefix_event, load_event, drain_event, drain_digest, member_event, member_digest,
  PrefixEvent, MemberEvent, member_add, member_remove, insert_kind, remove_kind,
}
use llm_inference.Cluster.Json.{Json, num, str, as_num, as_text, take-put_items, take-put_fields}
use llm_inference.Cluster.Codec.{
  to_json, decode_event, put_flag, take_flag, put_member, take_member,
}
use llm_inference.Cluster.Coordinator.{
  ClusterCoordinator, Shared, publish_insert, publish_remove, publish_load, publish_drain,
  publish_member_add, publish_member_remove, publish_membership_digest, publish_drain_digest,
  publish_unless_empty,
}
use llm_inference.Cluster.Sequence.{
  Call, insert, remove, load, drain, membership_digest, receive, call, run,
}

-- `receive_gossip`: the events that are put on the bus. A raw event is what `json.loads` gives for
-- it; one that does not decode is skipped.
unfoldable pub receive_gossip : List Json → List ClusterEvent
receive_gossip [] = []
receive_gossip (raw ∷ raws) = elim (decode_event raw) [
  | none ↦ receive_gossip raws
  | some e ↦ e ∷ receive_gossip raws
]

-- A prefix event has one of the two kinds of a prefix event, and a member event one of its two actions.
abbrev pub IsWellFormed : ClusterEvent → Type 0
IsWellFormed (prefix_event e) = (e.kind ≡ insert_kind) ⊎ (e.kind ≡ remove_kind)
IsWellFormed (member_event e) = (e.action ≡ member_add) ⊎ (e.action ≡ member_remove)
IsWellFormed (load_event e) = Unit
IsWellFormed (drain_event e) = Unit
IsWellFormed (drain_digest e) = Unit
IsWellFormed (member_digest e) = Unit

flag_kept : (b : Bool) → ltb 0 (if b then 1 else 0) ≡ b
flag_kept true = refl
flag_kept false = refl

member_back :
    (e : MemberEvent) (a : Text)
    → e.action ≡ a
    → ((x : MemberEvent)
        → decode_event (to_json (member_event (record x { action = a })))
          ≡ some (member_event (record x { action = a })))
    → decode_event (to_json (member_event e)) ≡ some (member_event e)
member_back e a h at_a =
    let same : record e { action = a } ≡ e = ap (λ b. record e { action = b }) (sym h) in
    ap (λ x. decode_event (to_json (member_event x))) (sym same)
    ∙ at_a e
    ∙ ap (λ x. some (member_event x)) same

prefix_back :
    (e : PrefixEvent) (k : Text)
    → e.kind ≡ k
    → ((x : PrefixEvent)
        → decode_event (to_json (prefix_event (record x { kind = k })))
          ≡ some (prefix_event (record x { kind = k })))
    → decode_event (to_json (prefix_event e)) ≡ some (prefix_event e)
prefix_back e k h at_k =
    let same : record e { kind = k } ≡ e = ap (λ j. record e { kind = j }) (sym h) in
    ap (λ x. decode_event (to_json (prefix_event x))) (sym same)
    ∙ at_k e
    ∙ ap (λ x. some (prefix_event x)) same

-- Decoding what `to_json` gives for a well-formed event of any class gives the event back.
pub decode_event-to_json : (e : ClusterEvent) → IsWellFormed e → decode_event (to_json e) ≡ some e
unfolding decode_event to_json list_beq
decode_event-to_json (load_event e) h =
    rw
      (
        take-put_fields num as_num (λ n. refl) e.inflight,
        take-put_items str as_text (λ s. refl) e.unhealthy,
      )
      refl
decode_event-to_json (drain_digest e) h =
    rw (take-put_fields put_flag take_flag (λ v. refl) e.entries) refl
decode_event-to_json (member_digest e) h =
    rw (take-put_fields put_member take_member (λ v. refl) e.entries) refl
decode_event-to_json (drain_event e) h =
    ap (λ d. some (drain_event (record e { draining = d }))) (flag_kept e.draining)
decode_event-to_json (member_event e) (inl h) = member_back e member_add h (λ x. refl)
decode_event-to_json (member_event e) (inr h) = member_back e member_remove h (λ x. refl)
decode_event-to_json (prefix_event e) (inl h) =
    prefix_back e insert_kind h (λ x. rw (take-put_items num as_num (λ n. refl) x.hashes) refl)
decode_event-to_json (prefix_event e) (inr h) =
    prefix_back e remove_kind h (λ x. rw (take-put_items num as_num (λ n. refl) x.hashes) refl)

digest-IsWellFormed :
    (n : ℕ) (c : ClusterCoordinator) (e : ClusterEvent)
    → IsWellFormed e
    → All IsWellFormed (publish_unless_empty n e c).1
digest-IsWellFormed zero c e h = tt
digest-IsWellFormed (suc n) c e h = (h, tt)

call-IsWellFormed :
    (m : Call) (c : ClusterCoordinator) (sh : Shared) → All IsWellFormed (call m c sh).2
unfolding call publish_insert publish_remove publish_load publish_drain publish_member_add
    publish_member_remove publish_membership_digest publish_drain_digest
call-IsWellFormed (insert [] id) c sh = tt
call-IsWellFormed (insert (h ∷ hashes) id) c sh = (inl refl, tt)
call-IsWellFormed (remove id) c sh = (inr refl, tt)
call-IsWellFormed (load inflight unhealthy) c sh = (tt, tt)
call-IsWellFormed (drain id draining) c sh = (tt, tt)
call-IsWellFormed (Call.member_add id url model) c sh = (inl refl, tt)
call-IsWellFormed (Call.member_remove id) c sh = (inr refl, tt)
call-IsWellFormed membership_digest c sh = digest-IsWellFormed (length c.membership.s) c _ tt
call-IsWellFormed Call.drain_digest c sh = digest-IsWellFormed (length c.drain.s) c _ tt
call-IsWellFormed (receive evs) c sh = tt

run-IsWellFormed :
    (ms : List Call) (c : ClusterCoordinator) (sh : Shared) → All IsWellFormed (run ms c sh).2
unfolding run
run-IsWellFormed [] c sh = tt
run-IsWellFormed (m ∷ ms) c sh =
    let (c', sh', evs) = call m c sh in
    All-append IsWellFormed evs (run ms c' sh').2 (call-IsWellFormed m c sh)
      (run-IsWellFormed ms c' sh')

receive_gossip-to_json :
    (evs : List ClusterEvent) → All IsWellFormed evs → receive_gossip (map to_json evs) ≡ evs
unfolding receive_gossip
receive_gossip-to_json [] h = refl
receive_gossip-to_json (e ∷ evs) h =
    rw (decode_event-to_json e h.0, receive_gossip) (ap (e ∷◌) (receive_gossip-to_json evs h.1))

-- Whatever methods of a coordinator are called, a peer that is sent the JSON of all the events that
-- it has published accepts every one of them, in order, and reads back the same events.
pub receive_gossip-run :
    (ms : List Call) (c : ClusterCoordinator) (sh : Shared)
    → receive_gossip (map to_json (run ms c sh).2) ≡ (run ms c sh).2
receive_gossip-run ms c sh = receive_gossip-to_json (run ms c sh).2 (run-IsWellFormed ms c sh)

-- An event that does not decode does not keep the events before and after it from being accepted.
pub receive_gossip-skip :
    (xs ys : List ClusterEvent) (raw : Json)
    → All IsWellFormed xs
    → All IsWellFormed ys
    → decode_event raw ≡ none
    → receive_gossip (map to_json xs ++ raw ∷ map to_json ys) ≡ xs ++ ys
unfolding receive_gossip
receive_gossip-skip [] ys raw hx hy bad = rw (bad, receive_gossip) (receive_gossip-to_json ys hy)
receive_gossip-skip (x ∷ xs) ys raw hx hy bad =
    rw (decode_event-to_json x hx.0, receive_gossip)
      (ap (x ∷◌) (receive_gossip-skip xs ys raw hx.1 hy bad))
