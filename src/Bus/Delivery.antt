-- ===== src/Bus/Delivery.antt =====
-- gateway/cluster/bus.py: the events that a replica is given.
use mathlib.Core.List.{append_assoc, append-nil}
use llm_inference.Base.{
  ◌≡◌, refl, sym, ap, ◌∙◌, true, not, List, [], ◌∷◌, ◌++◌, ◌==◌, eq_iff, beq_refl, if◌then◌else◌,
  filter, arith, inl, inr, Bool-cases,
}
use llm_inference.Base.Text.{Text, text_eq}
use llm_inference.Base.Dict
use llm_inference.Base.Dict.{Dict, get_or-set}
use llm_inference.Bus.{Event, broadcast, drain}

module _ {A : Type 0} where
  unfoldable pub publish_all :
      List (Event A) → Dict Text (List (Event A)) → Dict Text (List (Event A))
  publish_all [] m = m
  publish_all (ev ∷ evs) m = publish_all evs (broadcast ev m)

  -- The events that are not a replica's own.
  abbrev pub foreign : Text → List (Event A) → List (Event A)
  foreign rid evs = filter (λ ev. not (rid == ev.origin)) evs

  has-broadcast :
      (rid : Text) (ev : Event A) (m : Dict Text (List (Event A)))
      → Dict.has rid (broadcast ev m) ≡ Dict.has rid m
  unfolding broadcast Dict.has
  has-broadcast rid ev [] = refl
  has-broadcast rid ev ((j, box) ∷ m) =
      ap (λ b. if j == rid then true else b) (has-broadcast rid ev m)

  get_or-broadcast :
      (rid : Text) (ev : Event A) (m : Dict Text (List (Event A)))
      → Dict.has rid m ≡ true
      → Dict.get_or rid [] (broadcast ev m)
        ≡ (if rid == ev.origin then Dict.get_or rid [] m else Dict.get_or rid [] m ++ ev ∷ [])
  unfolding broadcast Dict.has Dict.get_or
  get_or-broadcast rid ev [] h = absurd (ground (arith, h))
  get_or-broadcast rid ev ((j, box) ∷ m) h = elim (Bool-cases (j == rid)) [
    | inl here ↦
        let e : j ≡ rid = (eq_iff j rid).0 here in
        let same : (j == ev.origin) ≡ (rid == ev.origin) = ap (λ k. k == ev.origin) e in
        rw (here, same)
    | inr later ↦ let h' = rw (later, Dict.has) at h in rw later (get_or-broadcast rid ev m h')
  ]

  inbox :
      (rid : Text) (evs : List (Event A)) (m : Dict Text (List (Event A)))
      → Dict.has rid m ≡ true
      → Dict.get_or rid [] (publish_all evs m) ≡ Dict.get_or rid [] m ++ foreign rid evs
  unfolding publish_all
  inbox rid [] m h = sym (append-nil (Dict.get_or rid [] m))
  inbox rid (ev ∷ evs) m h =
      let rest = inbox rid evs (broadcast ev m) (has-broadcast rid ev m ∙ h) in
      elim (Bool-cases (rid == ev.origin)) [
        | inl own ↦
            let got = rw own at (get_or-broadcast rid ev m h) in
            rw own (rest ∙ ap (◌++ foreign rid evs) got)
        | inr other ↦
            let got = rw other at (get_or-broadcast rid ev m h) in
            rw other (
              rest
              ∙ ap (◌++ foreign rid evs) got
              ∙ append_assoc (Dict.get_or rid [] m) (ev ∷ []) (foreign rid evs))
      ]

  -- A registered replica that polls after any sequence of publications is given what was in its inbox
  -- and then exactly the events of the others, each once and in order; polling again gives nothing.
  pub drain-publish_all :
      (rid : Text) (evs : List (Event A)) (m : Dict Text (List (Event A)))
      → Dict.has rid m ≡ true
      → ((drain rid (publish_all evs m)).1 ≡ Dict.get_or rid [] m ++ foreign rid evs)
        × ((drain rid (drain rid (publish_all evs m)).0).1 ≡ [])
  unfolding drain
  drain-publish_all rid evs m h =
      (inbox rid evs m h, rw (get_or-set rid rid [] [] (publish_all evs m), beq_refl rid))
