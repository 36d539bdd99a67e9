-- ===== src/Lww/Exchange.antt =====
-- One round of anti-entropy: each of two replicas merges the other's whole map.
use llm_inference.Base.{◌≡◌, refl, Option, none, some, List, [], ◌∷◌, arith, eq_iff}
use llm_inference.Base.Text.{Text, text_eq}
use llm_inference.Base.Dict
use llm_inference.Base.Dict.{Dict, IsDict, set-IsDict}
use llm_inference.Lww.Version.{Version, adopt, join, newer_asym, newer_total}
use llm_inference.Lww.Join.{Op, adopt_all, winner, get-adopt_all}

module _ {ℓ} {V : Type ℓ} where
  abbrev join_option : Option (Version V) → Option (Version V) → Option (Version V)
  join_option cur none = cur
  join_option cur (some v) = some (join cur v)

  winner-absent :
      (k : Text) (d : Dict Text (Version V)) (cur : Option (Version V))
      → Dict.get k d ≡ none
      → winner k cur d ≡ cur
  unfolding winner Dict.get
  winner-absent k [] cur h = refl
  winner-absent k ((id, v) ∷ d) cur h = ground (arith, winner-absent k d cur)

  winner-dict :
      (k : Text) (d : Dict Text (Version V)) (cur : Option (Version V))
      → IsDict d
      → winner k cur d ≡ join_option cur (Dict.get k d)
  unfolding winner Dict.get
  winner-dict k [] cur h = refl
  winner-dict k ((id, v) ∷ d) cur h =
      ground (arith, eq_iff id k, winner-absent k d (some (join cur v)), winner-dict k d cur)

  -- The two maps give equal stamps at a backend to one version only.
  abbrev pub Agrees : Option (Version V) → Option (Version V) → Type ℓ
  Agrees (some u) (some v) = u.ts ≡ v.ts → u.origin ≡ v.origin → u ≡ v
  Agrees none o = Unit
  Agrees (some u) none = Unit

  join_comm : (a b : Option (Version V)) → Agrees a b → join_option a b ≡ join_option b a
  join_comm none none h = refl
  join_comm none (some v) h = refl
  join_comm (some u) none h = refl
  join_comm (some u) (some v) h = ground (arith, newer_asym u v, newer_asym v u, newer_total u v)

  pub exchange-Agrees :
      (k : Text) (a b : Dict Text (Version V))
      → IsDict a
      → IsDict b
      → Agrees (Dict.get k a) (Dict.get k b)
      → Dict.get k (adopt_all a b) ≡ Dict.get k (adopt_all b a)
  exchange-Agrees k a b ha hb h = ground (
    arith,
    get-adopt_all k b a,
    get-adopt_all k a b,
    winner-dict k b (Dict.get k a) hb,
    winner-dict k a (Dict.get k b) ha,
    join_comm (Dict.get k a) (Dict.get k b) h,
  )

  adopt-IsDict :
      (id : Text) (v : Version V) (d : Dict Text (Version V)) → IsDict d → IsDict (adopt id v d)
  unfolding adopt
  adopt-IsDict id v d h = ground (arith, set-IsDict id v d h)

  pub adopt_all-IsDict :
      (d : Dict Text (Version V)) (ops : List (Op V)) → IsDict d → IsDict (adopt_all d ops)
  unfolding adopt_all
  adopt_all-IsDict d [] h = h
  adopt_all-IsDict d ((id, v) ∷ ops) h = adopt_all-IsDict (adopt id v d) ops (adopt-IsDict id v d h)
