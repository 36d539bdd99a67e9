-- ===== src/Lww/Converge.antt =====
-- Convergence of replicas that saw the same operations, in whatever order and however often.
use llm_inference.Base.{◌≡◌, inl, inr, none, some, List, [], arith, ap, sym, ◌∙◌, Option-cases}
use llm_inference.Base.Text.{Text, text_eq}
use llm_inference.Base.Dict
use llm_inference.Base.Dict.{Dict}
use llm_inference.Lww.Version.{Version, newer_total}
use llm_inference.Lww.Join.{
  Op, In, adopt_all, winner, get-adopt_all, winner_source, winner_top-In, winner-none-In,
}

module _ {ℓ} {V : Type ℓ} where
  -- A timestamp and a replica id name one operation of a backend.
  abbrev pub IsCoherent : List (Op V) → Type ℓ
  IsCoherent ops =
      (k : Text) (u v : Version V)
      → In (k, u) ops
      → In (k, v) ops
      → u.ts ≡ v.ts
      → u.origin ≡ v.origin
      → u ≡ v

  abbrev pub Covers : List (Op V) → List (Op V) → Type ℓ
  Covers xs ys = (op : Op V) → In op ys → In op xs

  source_of_empty :
      (k : Text) (ops : List (Op V)) (w : Version V) → winner k none ops ≡ some w → In (k, w) ops
  source_of_empty k ops w h = elim (winner_source k ops none w h) [
    | inl e ↦ ground arith
    | inr m ↦ m
  ]

  winners_agree :
      (k : Text) (xs ys : List (Op V))
      → IsCoherent xs
      → Covers xs ys
      → Covers ys xs
      → winner k none xs ≡ winner k none ys
  winners_agree k xs ys coherent xy yx = elim (Option-cases (winner k none xs)) [
    | inl ex ↦ elim (Option-cases (winner k none ys)) [
      | inl ey ↦ ex ∙ sym ey
      | inr (w, ey) ↦ absurd (winner-none-In k xs none w ex (xy (k, w) (source_of_empty k ys w ey)))
    ]
    | inr (v, ex) ↦ elim (Option-cases (winner k none ys)) [
      | inl ey ↦ absurd (winner-none-In k ys none v ey (yx (k, v) (source_of_empty k xs v ex)))
      | inr (w, ey) ↦
          let mv = source_of_empty k xs v ex in
          let mw = xy (k, w) (source_of_empty k ys w ey) in
          let tops =
            newer_total v w (winner_top-In k ys none v w ey (yx (k, v) mv))
              (winner_top-In k xs none w v ex mw) in
          ex ∙ ap some (coherent k v w mv mw tops.0 tops.1) ∙ sym ey
    ]
  ]

  -- Two maps that start empty and adopt the same set of operations, in any order and with any
  -- repetitions, hold the same version of every backend, if a timestamp and a replica id name one
  -- operation.
  pub adopt_all_converges :
      (k : Text) (xs ys : List (Op V))
      → IsCoherent xs
      → Covers xs ys
      → Covers ys xs
      → Dict.get k (adopt_all [] xs) ≡ Dict.get k (adopt_all [] ys)
  unfolding Dict.get
  adopt_all_converges k xs ys coherent xy yx =
      get-adopt_all k xs [] ∙ winners_agree k xs ys coherent xy yx ∙ sym (get-adopt_all k ys [])
