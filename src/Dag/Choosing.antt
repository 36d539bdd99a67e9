-- ===== src/Dag/Choosing.antt =====
-- gateway/dag/scheduler.py: the backend that is chosen for a node.
use llm_inference.Base.{
  ℕ, ◌%◌, ◌≡◌, refl, inl, inr, some, List, [], ◌∷◌, length, All, All-get_elem?, get_elem?,
  Bool-cases, Option-cases,
}
use llm_inference.Base.Text.{Text, text_eq}
use llm_inference.Base.Dict.{Dict}
use llm_inference.Dag.{DagNode}
use llm_inference.Dag.Schedule.{
  DagSchedConfig, Strategy, locality, round_robin, Planning, soonest, is_sooner, turn_of, choose,
  parent_backends,
}

soonest-All :
    (P : Text → Type 0) (cfg : DagSchedConfig) (s : Planning) (found : Dict Text ℕ) (n : ℕ)
    (parents : List Text) (best : Text) (bs : List Text)
    → P best
    → All P bs
    → P (soonest cfg s found n parents best bs)
unfolding soonest
soonest-All P cfg s found n parents best [] hb hs = hb
soonest-All P cfg s found n parents best (b ∷ bs) hb hs =
    elim (Bool-cases (is_sooner cfg s found n parents b best)) [
      | inl sooner ↦ rw sooner (soonest-All P cfg s found n parents b bs hs.0 hs.1)
      | inr later ↦ rw later (soonest-All P cfg s found n parents best bs hb hs.1)
    ]

turn_of-All :
    (P : Text → Type 0) (rr : ℕ) (b : Text) (bs : List Text) → All P (b ∷ bs) → P (turn_of rr b bs)
turn_of-All P rr b bs h = elim (Option-cases (get_elem? (b ∷ bs) (rr % length (b ∷ bs)))) [
  | inl outside ↦ rw (outside, turn_of) h.0
  | inr (c, found) ↦ rw (found, turn_of) (All-get_elem? P (b ∷ bs) (rr % length (b ∷ bs)) c h found)
]

-- There is a choice, and it is one of the backends to choose from.
pub choose-All :
    (P : Text → Type 0) (cfg : DagSchedConfig) (strategy : Strategy) (s : Planning)
    (found : Dict Text ℕ) (k : ℕ) (n : DagNode) (b : Text) (bs : List Text)
    → All P (b ∷ bs)
    → (c : Text) × (choose cfg strategy s found k n (b ∷ bs) ≡ some c) × P c
unfolding choose
choose-All P cfg round_robin s found k n b bs h =
    (turn_of s.rr b bs, refl, turn_of-All P s.rr b bs h)
choose-All P cfg locality s found k n b bs h =
    (_, refl, soonest-All P cfg s found k (parent_backends s.node_backend n.parents) b bs h.0 h.1)
