-- ===== src/Lww/Members/Laws.antt =====
-- gateway/cluster/membership_state.py: replicas, tombstones, and the listed members.
use llm_inference.Base.{
  ◌≡◌, refl, Bool, false, not, Option, none, some, List, [], ◌∷◌, arith, ap, ◌∙◌, eq_iff, contains,
}
use llm_inference.Base.Text.{Text, text_eq}
use llm_inference.Base.Dict
use llm_inference.Base.Dict.{Dict, IsDict, get-set}
use llm_inference.Lww.Version.{Version, newer, adopt}
use llm_inference.Lww.Join.{Op, adopt_all, winner_top, get-adopt_all}
use llm_inference.Lww.Converge.{IsCoherent, Covers, adopt_all_converges}
use llm_inference.Lww.Exchange.{adopt_all-IsDict}
use llm_inference.Lww.Members.{Member, MembershipState, init, apply, merge, removed}

pub s-apply :
    (id : Text) (v : Version Member) (st : MembershipState) → (apply id v st).0.s ≡ adopt id v st.s
unfolding apply adopt
s-apply id v st = ground arith

pub s-merge :
    (ops : List (Op Member)) (st : MembershipState) → (merge ops st).0.s ≡ adopt_all st.s ops
unfolding merge adopt_all
s-merge [] st = refl
s-merge ((id, v) ∷ ops) st =
    s-merge ops (apply id v st).0 ∙ ap (λ d. adopt_all d ops) (s-apply id v st)

-- Two new replicas that apply the same set of membership operations, each in its own order and with
-- any repetitions, hold the same entry of every backend, if a timestamp and a replica id name one
-- operation of a backend.
pub membership_converges :
    (k : Text) (xs ys : List (Op Member))
    → IsCoherent xs
    → Covers xs ys
    → Covers ys xs
    → Dict.get k (merge xs init).0.s ≡ Dict.get k (merge ys init).0.s
membership_converges k xs ys coherent xy yx =
    rw (s-merge xs init, s-merge ys init) (adopt_all_converges k xs ys coherent xy yx)

-- A tombstone that a replica holds stays, whatever the replica merges, as long as it merges no
-- newer version of that backend: what replaces it beats it.
pub tombstone_stays :
    (k : Text) (t w : Version Member) (ops : List (Op Member)) (st : MembershipState)
    → Dict.get k st.s ≡ some t
    → Dict.get k (merge ops st).0.s ≡ some w
    → newer t w ≡ false
tombstone_stays k t w ops st held found =
    ground (arith, s-merge ops st, get-adopt_all k ops st.s, winner_top k ops (Dict.get k st.s) w)

-- Whether a map holds a tombstone of the backend.
abbrev pub is_tombstone : Option (Version Member) → Bool
is_tombstone none = false
is_tombstone (some v) = not v.value.present

removed_absent :
    (id : Text) (s : Dict Text (Version Member))
    → Dict.get id s ≡ none
    → contains id (removed s) ≡ false
unfolding removed contains Dict.get
removed_absent id [] h = refl
removed_absent id ((j, v) ∷ s) h = ground (arith, removed_absent id s)

pub removed_at :
    (id : Text) (s : Dict Text (Version Member))
    → IsDict s
    → contains id (removed s) ≡ is_tombstone (Dict.get id s)
unfolding removed contains Dict.get
removed_at id [] h = refl
removed_at id ((j, v) ∷ s) h = ground (arith, eq_iff j id, removed_absent id s, removed_at id s h.1)

-- In a map with distinct backends, one is listed as removed exactly if the map holds a tombstone of
-- it, and after any merge the same is true of the merged map.
pub removed-merge :
    (id : Text) (ops : List (Op Member)) (st : MembershipState)
    → IsDict st.s
    → contains id (removed (merge ops st).0.s) ≡ is_tombstone (Dict.get id (merge ops st).0.s)
removed-merge id ops st h =
    removed_at id (merge ops st).0.s (rw (s-merge ops st) (adopt_all-IsDict st.s ops h))
