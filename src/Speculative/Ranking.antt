-- ===== src/Speculative/Ranking.antt =====
-- gateway/extensions/speculative.py: the number of candidates.
use llm_inference.Base.{
  ℕ, zero, suc, ◌≤◌, ◌<◌, ◌≡◌, refl, max, Option, none, some, List, ◌∷◌, length, length-map,
  length-take-le, take, arith, list_cases, inl, inr,
}
use llm_inference.Base.Text.{Text, text_eq}
use llm_inference.Base.Dict.{Dict}
use llm_inference.Router.{Router, Scored}
use llm_inference.Speculative.{sort, scored_of, least_saturated, chosen_of, single}

length-single : (o : Option Text) (b : Text) (bs : List Text) → length (single o (b ∷ bs)) ≡ 1
length-single none b bs = refl
length-single (some c) b bs = refl

take-pos : (n : ℕ) (s : Scored) (ss : List Scored) → 0 < n → 0 < length (take n (s ∷ ss))
take-pos zero s ss h = absurd (omega arith)
take-pos (suc n) s ss h = omega arith

-- With a backend at all, a speculative dispatch has at least one candidate, and at most `k`, or one
-- where `k` is 0.
pub length-chosen_of :
    (r : Router) (k tokens : ℕ) (found : Dict Text ℕ) (b : Text) (bs : List Text)
    → (0 < length (chosen_of r k tokens found (b ∷ bs)))
      × (length (chosen_of r k tokens found (b ∷ bs)) ≤ max 1 k)
unfolding chosen_of
length-chosen_of r k tokens found b bs =
    elim (list_cases (sort (scored_of r tokens found (b ∷ bs)))) [
      | inl empty ↦
          let one_left = length-single (least_saturated r none (b ∷ bs)) b bs in
          rw (empty, chosen_of) (omega arith, omega arith)
      | inr (s, ss, ranked) ↦
          rw (ranked, chosen_of, length-map (λ (c : Scored). c.backend) (take (max 1 k) (s ∷ ss)))
            (take-pos (max 1 k) s ss (omega arith), length-take-le (max 1 k) (s ∷ ss))
    ]
