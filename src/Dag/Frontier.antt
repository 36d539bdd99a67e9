-- ===== src/Dag/Frontier.antt =====
-- gateway/dag/graph.py: the frontier of the layering while a layer is visited, and the sorting of a
-- layer.
use llm_inference.Base.{
  ℕ, ◌-◌, ◌≡◌, refl, ap, ◌∙◌, inl, inr, true, false, ◌||◌, List, [], ◌∷◌, ◌++◌, ◌==◌, nat_eq,
  eq_iff, arith, contains, Bool-cases,
}
use llm_inference.Base.Text.{Text, text_eq, text_ltb}
use llm_inference.Base.Dict
use llm_inference.Base.Dict.{Dict, IsDict, get_or-set}
use llm_inference.Dag.{insert_sorted, sorted, visit_kids}
use llm_inference.Dag.Counting.{get_or-visit_kids}

-- No id of the list waits for a parent.
abbrev pub Zero : Dict Text ℕ → List Text → Type 0
Zero indeg xs = (x : Text) → contains x xs ≡ true → Dict.get_or x 0 indeg ≡ 0

abbrev pub Away : List Text → List Text → Type 0
Away xs ys = (x : Text) → contains x xs ≡ true → contains x ys ≡ false

abbrev pub Distinct : List Text → Type 0
Distinct [] = Unit
Distinct (x ∷ xs) = (contains x xs ≡ false) × Distinct xs

contains-push :
    (x c : Text) (xs : List Text) → contains x (xs ++ c ∷ []) ≡ (contains x xs || c == x)
unfolding contains
contains-push x c [] = ground arith
contains-push x c (y ∷ ys) = ground (arith, contains-push x c ys)

Distinct-push :
    (c : Text) (xs : List Text) → contains c xs ≡ false → Distinct xs → Distinct (xs ++ c ∷ [])
unfolding contains
Distinct-push c [] h d = (refl, tt)
Distinct-push c (x ∷ xs) h d = (
  ground (arith, contains-push x c xs, eq_iff x c, eq_iff c x, h, d.0),
  Distinct-push c xs (ground (arith, h)) d.1,
)

pub Zero-visit_kids :
    (cs : List Text) (indeg : Dict Text ℕ) (frontier xs : List Text)
    → Zero indeg xs
    → Zero (visit_kids cs indeg frontier).0 xs
Zero-visit_kids cs indeg frontier xs h x m =
    get_or-visit_kids x cs indeg frontier ∙ ground (arith, h x m)

-- The frontier stays free of repetitions and of ids that have been on it.
pub frontier-visit_kids :
    (cs : List Text) (indeg : Dict Text ℕ) (frontier : List Text)
    → Zero indeg frontier
    → Distinct frontier
    → let (indeg', frontier') = visit_kids cs indeg frontier in
      Zero indeg' frontier' × Distinct frontier'
unfolding visit_kids
frontier-visit_kids [] indeg frontier z d = (z, d)
frontier-visit_kids (c ∷ cs) indeg frontier z d =
    let n = Dict.get_or c 0 indeg in
    let indeg' = Dict.set c (n - 1) indeg in
    elim (Bool-cases (n == 1)) [
      | inl last ↦
          let one : n ≡ 1 = (eq_iff n 1).0 last in
          let new : contains c frontier ≡ false = elim (Bool-cases (contains c frontier)) [
            | inl there ↦ absurd (let e = z c there in omega (arith, e, one))
            | inr gone ↦ gone
          ] in
          rw (visit_kids, last)
            (frontier-visit_kids cs indeg' (frontier ++ c ∷ [])
              (λ x m. ground (
                arith,
                get_or-set c x (n - 1) 0 indeg,
                eq_iff c x,
                contains-push x c frontier,
                m,
                z x,
                one,
              ))
              (Distinct-push c frontier new d))
      | inr more ↦
          rw (visit_kids, more)
            (frontier-visit_kids cs indeg' frontier
              (λ x m. ground (
                arith,
                get_or-set c x (n - 1) 0 indeg,
                eq_iff c x,
                m,
                z x,
                ap (λ y. Dict.get_or y 0 indeg),
              ))
              d)
    ]

-- An id that waits for nothing and is not on the frontier is not put on it.
pub away-visit_kids :
    (x : Text) (cs : List Text) (indeg : Dict Text ℕ) (frontier : List Text)
    → Dict.get_or x 0 indeg ≡ 0
    → contains x frontier ≡ false
    → contains x (visit_kids cs indeg frontier).1 ≡ false
unfolding visit_kids
away-visit_kids x [] indeg frontier z h = h
away-visit_kids x (c ∷ cs) indeg frontier z h =
    let n = Dict.get_or c 0 indeg in
    let indeg' = Dict.set c (n - 1) indeg in
    let z' : Dict.get_or x 0 indeg' ≡ 0 =
      get_or-set c x (n - 1) 0 indeg
      ∙ ground (arith, eq_iff c x, z, ap (λ y. Dict.get_or y 0 indeg)) in
    elim (Bool-cases (n == 1)) [
      | inl last ↦
          rw (visit_kids, last)
            (away-visit_kids x cs indeg' (frontier ++ c ∷ []) z' (
              contains-push x c frontier
              ∙ ground
                  (arith, h, z, eq_iff c x, eq_iff n 1, last, ap (λ y. Dict.get_or y 0 indeg))))
      | inr more ↦ rw (visit_kids, more) (away-visit_kids x cs indeg' frontier z' h)
    ]

contains-insert_sorted :
    (x y : Text) (ys : List Text) → contains x (insert_sorted y ys) ≡ contains x (y ∷ ys)
unfolding contains insert_sorted
contains-insert_sorted x y [] = refl
contains-insert_sorted x y (z ∷ ys) = ground (arith, contains-insert_sorted x y ys)

pub contains-sorted : (x : Text) (xs : List Text) → contains x (sorted xs) ≡ contains x xs
unfolding contains sorted
contains-sorted x [] = refl
contains-sorted x (y ∷ xs) =
    contains-insert_sorted x y (sorted xs) ∙ ground (arith, contains-sorted x xs)

Distinct-insert_sorted :
    (x : Text) (ys : List Text)
    → contains x ys ≡ false
    → Distinct ys
    → Distinct (insert_sorted x ys)
unfolding contains insert_sorted
Distinct-insert_sorted x [] h d = (refl, tt)
Distinct-insert_sorted x (y ∷ ys) h d = elim (Bool-cases (text_ltb y x)) [
  | inl less ↦
      rw (insert_sorted, less)
        (
          contains-insert_sorted y x ys ∙ ground (arith, h, d.0, eq_iff x y, eq_iff y x),
          Distinct-insert_sorted x ys (ground (arith, h)) d.1,
        )
  | inr more ↦ rw (insert_sorted, more) (h, d)
]

pub Distinct-sorted : (xs : List Text) → Distinct xs → Distinct (sorted xs)
unfolding sorted
Distinct-sorted [] d = tt
Distinct-sorted (x ∷ xs) d =
    Distinct-insert_sorted x (sorted xs) (contains-sorted x xs ∙ d.0) (Distinct-sorted xs d.1)
