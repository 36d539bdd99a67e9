-- ===== src/Lww/Drain/Laws.antt =====
-- gateway/cluster/drain_state.py: replicas, local operations, and the reports of changes.
use llm_inference.Base.{
  ◌+◌, ◌≤◌, ◌<◌, ◌≡◌, ◌≢◌, ◌↔◌, refl, Bool, true, false, contains, Option, none, some, List, [],
  ◌∷◌, arith, ap, ◌∙◌, eq_iff,
}
use llm_inference.Base.Text.{Text, text_eq}
use llm_inference.Base.Dict
use llm_inference.Base.Dict.{Dict, IsDict, get-set, set-IsDict}
use llm_inference.Lww.Version.{Version, newer, adopt, get-adopt}
use llm_inference.Lww.Join.{Op, In, here, there, adopt_all}
use llm_inference.Lww.Converge.{IsCoherent, Covers, adopt_all_converges}
use llm_inference.Lww.Exchange.{Agrees, exchange-Agrees}
use llm_inference.Lww.Drain.{DrainState, init, set_local, apply, merge, digest, drained}

pub s-apply :
    (id : Text) (v : Version Bool) (st : DrainState) → (apply id v st).0.s ≡ adopt id v st.s
unfolding apply adopt
s-apply id v st = ground arith

pub s-merge : (ops : List (Op Bool)) (st : DrainState) → (merge ops st).0.s ≡ adopt_all st.s ops
unfolding merge adopt_all
s-merge [] st = refl
s-merge ((id, v) ∷ ops) st =
    s-merge ops (apply id v st).0 ∙ ap (λ d. adopt_all d ops) (s-apply id v st)

-- Two new replicas that apply the same set of drain operations, each in its own order and with any
-- repetitions, hold the same flag, timestamp and owner of every backend, if a timestamp and a
-- replica id name one operation of a backend.
pub drain_converges :
    (k : Text) (xs ys : List (Op Bool))
    → IsCoherent xs
    → Covers xs ys
    → Covers ys xs
    → Dict.get k (merge xs init).0.s ≡ Dict.get k (merge ys init).0.s
drain_converges k xs ys coherent xy yx =
    rw (s-merge xs init, s-merge ys init) (adopt_all_converges k xs ys coherent xy yx)

-- After two replicas have merged each other's digest they hold the same version of every backend at
-- which equal stamps meant equal versions.
pub drain_exchange :
    (k : Text) (a b : DrainState)
    → IsDict a.s
    → IsDict b.s
    → Agrees (Dict.get k a.s) (Dict.get k b.s)
    → Dict.get k (merge (digest b) a).0.s ≡ Dict.get k (merge (digest a) b).0.s
drain_exchange k a b ha hb h = rw (s-merge b.s a, s-merge a.s b) (exchange-Agrees k a.s b.s ha hb h)

-- Every timestamp in the map is at most the clock.
pub record IsStamped (st : DrainState) : Type 0 where
  pub at_key : (k : Text) (v : Version Bool) → Dict.get k st.s ≡ some v → v.ts ≤ st.clock

IsStamped-init : IsStamped init
unfolding Dict.get
IsStamped-init = record { at_key = λ k v h. ground arith }

pub apply-IsStamped :
    (id : Text) (v : Version Bool) (st : DrainState) → IsStamped st → IsStamped (apply id v st).0
unfolding apply
apply-IsStamped id v st h = record {
  at_key = λ k w e. ground (arith, get-set id k v st.s, eq_iff id k, h.at_key k w);
}

set_local-IsStamped :
    (id : Text) (draining : Bool) (origin : Text) (st : DrainState)
    → IsStamped st
    → IsStamped (set_local id draining origin st).0
unfolding set_local
set_local-IsStamped id draining origin st h = record {
  at_key = λ k w e. ground (
    arith,
    get-set id k (record { value = draining; ts = st.clock + 1; origin = origin }) st.s,
    h.at_key k w,
  );
}

merge-IsStamped :
    (ops : List (Op Bool)) (st : DrainState) → IsStamped st → IsStamped (merge ops st).0
unfolding merge
merge-IsStamped [] st h = h
merge-IsStamped ((id, v) ∷ ops) st h =
    merge-IsStamped ops (apply id v st).0 (apply-IsStamped id v st h)

-- The clock is past everything that has been merged.
merge-clock :
    (ops : List (Op Bool)) (st : DrainState)
    → (st.clock ≤ (merge ops st).0.clock)
      × ((op : Op Bool) → In op ops → op.1.ts ≤ (merge ops st).0.clock)
unfolding merge
merge-clock [] st = (omega arith, λ op m. elim m [ ])
merge-clock ((id, v) ∷ ops) st =
    let one = apply id v st in
    let rest = merge-clock ops one.0 in
    let seen : (st.clock ≤ one.0.clock) × (v.ts ≤ one.0.clock) = unfold apply in ground arith in
    (
      omega (arith, rest.0, seen.0),
      λ op m. elim m [
        | here e ↦ let t = ap (λ (x : Op Bool). x.1.ts) e in omega (arith, t, rest.0, seen.1)
        | there n ↦ rest.1 op n
      ],
    )

-- Operations with lower timestamps leave a version where it is.
outlasts :
    (id : Text) (w : Version Bool) (ops : List (Op Bool)) (st : DrainState)
    → Dict.get id st.s ≡ some w
    → ((op : Op Bool) → In op ops → op.1.ts < w.ts)
    → Dict.get id (merge ops st).0.s ≡ some w
unfolding merge
outlasts id w [] st held low = held
outlasts id w ((j, v) ∷ ops) st held low =
    let older : newer v w ≡ false =
      let lt = low (j, v) (here refl) in unfold newer in ground (arith, lt) in
    outlasts id w ops (apply j v st).0
      (ap (Dict.get id) (s-apply j v st)
        ∙ get-adopt j id v st.s
        ∙ ground (arith, eq_iff j id, held, older, ap (λ i. Dict.get i st.s)))
      (λ op m. low op (there m))

-- After a replica has merged any operations, a local drain or undrain is stamped above the timestamps of
-- all of them and of every version that it holds; and however those operations are delivered again, in
-- any order and number, the backend keeps the flag, the timestamp and the owner of the local operation.
-- The clock was not behind the map when the replica began.
pub set_local_wins :
    (id : Text) (draining : Bool) (origin : Text) (xs ys : List (Op Bool)) (st : DrainState)
    → IsStamped st
    → Covers xs ys
    → let before = (merge xs st).0 in
      let (after, ts) = set_local id draining origin before in
      ((op : Op Bool) → In op xs → op.1.ts < ts)
      × ((k : Text) (v : Version Bool) → Dict.get k before.s ≡ some v → v.ts < ts)
      × (Dict.get id (merge ys after).0.s
          ≡ some (record { value = draining; ts = ts; origin = origin }))
unfolding set_local
set_local_wins id draining origin xs ys st h again =
    let before = (merge xs st).0 in
    let w : Version Bool = record { value = draining; ts = before.clock + 1; origin = origin } in
    let seen = (merge-clock xs st).1 in
    let held = (merge-IsStamped xs st h).at_key in
    (
      λ op m. let le = seen op m in omega (arith, le),
      λ k v e. let le = held k v e in omega (arith, le),
      outlasts id w ys (record { s = Dict.set id w before.s; clock = before.clock + 1 })
          (get-set id id w before.s ∙ ground (arith, eq_iff id id))
          (λ op m. let le = seen op (again op m) in omega (arith, le)),
    )

-- The flag of a backend, if the map has one.
abbrev pub flag : Text → DrainState → Option Bool
flag k st = elim (Dict.get k st.s) [ none ↦ none | some v ↦ some v.value ]

-- `apply` reports a change exactly if the flag of the backend is set or changed by it, and it
-- changes the flag of no other backend.
pub apply_reports :
    (id k : Text) (v : Version Bool) (st : DrainState)
    → ((apply id v st).1 ≡ true ↔ flag id (apply id v st).0 ≢ flag id st)
      × (id ≢ k → flag k (apply id v st).0 ≡ flag k st)
unfolding apply
apply_reports id k v st =
    ground (arith, eq_iff id id, eq_iff id k, get-set id id v st.s, get-set id k v st.s)

pub flag-apply_quiet :
    (id k : Text) (v : Version Bool) (st : DrainState)
    → (apply id v st).1 ≡ false
    → flag k (apply id v st).0 ≡ flag k st
flag-apply_quiet id k v st h = ground (
  arith,
  apply_reports id k v st,
  eq_iff id k,
  ap (λ i. flag i st),
  ap (λ i. flag i (apply id v st).0),
)

-- A merge that reports no change changes no flag.
pub flag-merge_quiet :
    (k : Text) (ops : List (Op Bool)) (st : DrainState)
    → (merge ops st).1 ≡ false
    → flag k (merge ops st).0 ≡ flag k st
unfolding merge
flag-merge_quiet k [] st h = refl
flag-merge_quiet k ((id, v) ∷ ops) st h =
    ground (arith, flag-merge_quiet k ops (apply id v st).0, flag-apply_quiet id k v st)

-- Whether an entry of the map says that its backend is drained.
abbrev pub is_drained : Option (Version Bool) → Bool
is_drained none = false
is_drained (some v) = v.value

drained_absent :
    (id : Text) (s : Dict Text (Version Bool))
    → Dict.get id s ≡ none
    → contains id (drained s) ≡ false
unfolding drained contains Dict.get
drained_absent id [] h = refl
drained_absent id ((j, v) ∷ s) h = ground (arith, drained_absent id s)

-- In a map with distinct backends, one is listed as drained exactly if its flag is set.
pub contains-drained :
    (id : Text) (s : Dict Text (Version Bool))
    → IsDict s
    → contains id (drained s) ≡ is_drained (Dict.get id s)
unfolding drained contains Dict.get
contains-drained id [] h = refl
contains-drained id ((j, v) ∷ s) h =
    ground (arith, eq_iff j id, drained_absent id s, contains-drained id s h.1)
