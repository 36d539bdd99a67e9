-- ===== src/Lww/Join.antt =====
-- What a sequence of operations leaves at a backend: a version that some operation carried, and
-- that no operation of that backend beats.
use llm_inference.Base.{
  ◌≡◌, refl, ◌⊎◌, inl, inr, false, Option, none, some, List, [], ◌∷◌, if◌then◌else◌, arith, ap,
  ◌==◌, eq_iff,
}
use mathlib.Core.Path.{ap₂}
use llm_inference.Base.Text.{Text, text_eq}
use llm_inference.Base.Dict
use llm_inference.Base.Dict.{Dict}
use llm_inference.Lww.Version.{
  Version, newer, adopt, join, get-adopt, newer_irrefl, not-newer_trans, join_top_left,
  join_top_right,
}

-- A backend and a version for it: one remote operation, or one entry of a digest.
abbrev pub Op {ℓ} : Type ℓ → Type ℓ
Op V = Text × Version V

pub data In {ℓ} {A : Type ℓ} (a : A) : List A → Type ℓ where
  here : {x : A} {xs : List A} → a ≡ x → In a (x ∷ xs)
  there : {x : A} {xs : List A} → In a xs → In a (x ∷ xs)

module _ {ℓ} {V : Type ℓ} where
  unfoldable pub adopt_all : Dict Text (Version V) → List (Op V) → Dict Text (Version V)
  adopt_all d [] = d
  adopt_all d ((id, v) ∷ ops) = adopt_all (adopt id v d) ops

  -- The winner at one backend, from a current version on.
  unfoldable pub winner : Text → Option (Version V) → List (Op V) → Option (Version V)
  winner k cur [] = cur
  winner k cur ((id, v) ∷ ops) = winner k (if id == k then some (join cur v) else cur) ops

  pub get-adopt_all :
      (k : Text) (ops : List (Op V)) (d : Dict Text (Version V))
      → Dict.get k (adopt_all d ops) ≡ winner k (Dict.get k d) ops
  unfolding adopt_all winner
  get-adopt_all k [] d = refl
  get-adopt_all k ((id, v) ∷ ops) d =
      ground (arith, get-adopt_all k ops (adopt id v d), get-adopt id k v d, eq_iff id k)

  picked :
      (k id : Text) (v : Version V) (cur : Option (Version V)) (w : Version V)
      → (if id == k then some (join cur v) else cur) ≡ some w
      → (cur ≡ some w) ⊎ ((k ≡ id) × (w ≡ v))
  picked k id v none w h = ground (arith, eq_iff id k)
  picked k id v (some c) w h = ground (arith, eq_iff id k)

  pub winner_source :
      (k : Text) (ops : List (Op V)) (cur : Option (Version V)) (w : Version V)
      → winner k cur ops ≡ some w
      → (cur ≡ some w) ⊎ In (k, w) ops
  unfolding winner
  winner_source k [] cur w h = inl h
  winner_source k ((id, v) ∷ ops) cur w h =
      elim (winner_source k ops (if id == k then some (join cur v) else cur) w h) [
        | inl e ↦ elim (picked k id v cur w e) [
          | inl old ↦ inl old
          | inr new ↦ inr (here (ap₂ (λ (x : Text) (y : Version V). (x, y)) new.0 new.1))
        ]
        | inr m ↦ inr (there m)
      ]

  -- `w` is not beaten by what stands in `o`.
  abbrev pub Tops : Version V → Option (Version V) → Type 0
  Tops w none = Unit
  Tops w (some c) = newer c w ≡ false

  Tops-step :
      (k id : Text) (v : Version V) (cur : Option (Version V)) (w : Version V)
      → Tops w (if id == k then some (join cur v) else cur)
      → Tops w cur
  Tops-step k id v none w t = tt
  Tops-step k id v (some c) w t =
      ground (arith, join_top_left c v, not-newer_trans c (join (some c) v) w)

  pub winner_top :
      (k : Text) (ops : List (Op V)) (cur : Option (Version V)) (w : Version V)
      → winner k cur ops ≡ some w
      → Tops w cur
  unfolding winner
  winner_top k [] none w h = tt
  winner_top k [] (some c) w h = ground (arith, newer_irrefl c)
  winner_top k ((id, v) ∷ ops) cur w h =
      Tops-step k id v cur w (winner_top k ops (if id == k then some (join cur v) else cur) w h)

  Tops-here :
      (k id : Text) (u v : Version V) (cur : Option (Version V)) (w : Version V)
      → k ≡ id
      → u ≡ v
      → Tops w (if id == k then some (join cur v) else cur)
      → newer u w ≡ false
  Tops-here k id u v cur w p q t =
      ground (arith, eq_iff id k, join_top_right cur v, not-newer_trans v (join cur v) w)

  -- No operation of the backend beats the winner.
  pub winner_top-In :
      (k : Text) (ops : List (Op V)) (cur : Option (Version V)) (u w : Version V)
      → winner k cur ops ≡ some w
      → In (k, u) ops
      → newer u w ≡ false
  unfolding winner
  winner_top-In k [] cur u w h m = elim m [ ]
  winner_top-In k ((id, v) ∷ ops) cur u w h (here e) =
      Tops-here k id u v cur w (ap (λ (x : Op V). x.0) e) (ap (λ (x : Op V). x.1) e)
        (winner_top k ops (if id == k then some (join cur v) else cur) w h)
  winner_top-In k ((id, v) ∷ ops) cur u w h (there m) =
      winner_top-In k ops (if id == k then some (join cur v) else cur) u w h m

  -- An operation of the backend leaves a winner.
  pub winner_some :
      (k : Text) (ops : List (Op V)) (cur : Option (Version V))
      → winner k cur ops ≡ none
      → cur ≡ none
  unfolding winner
  winner_some k [] cur h = h
  winner_some k ((id, v) ∷ ops) none h = refl
  winner_some k ((id, v) ∷ ops) (some c) h =
      ground (arith, winner_some k ops (if id == k then some (join (some c) v) else some c) h)

  pub winner-none-In :
      (k : Text) (ops : List (Op V)) (cur : Option (Version V)) (u : Version V)
      → winner k cur ops ≡ none
      → ¬ In (k, u) ops
  unfolding winner
  winner-none-In k [] cur u h m = elim m [ ]
  winner-none-In k ((id, v) ∷ ops) cur u h (here e) = ground (
    arith,
    eq_iff id k,
    ap (λ (x : Op V). x.0) e,
    winner_some k ops (if id == k then some (join cur v) else cur) h,
  )
  winner-none-In k ((id, v) ∷ ops) cur u h (there m) =
      winner-none-In k ops (if id == k then some (join cur v) else cur) u h m
