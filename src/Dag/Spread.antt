-- ===== src/Dag/Spread.antt =====
-- gateway/dag/graph.py: the ids in the layers.
use mathlib.Core.Option.{some-injective, none-ne-some}
use llm_inference.Base.{
  ℕ, zero, suc, ◌-◌, ◌≡◌, inl, inr, Bool, true, false, some, List, [], ◌∷◌, ◌++◌, ◌==◌, nat_eq,
  eq_iff, if◌then◌else◌, length, All, All-append, Bool-cases,
}
use llm_inference.Base.Text.{Text, text_eq, text_ltb}
use llm_inference.Base.Dict
use llm_inference.Base.Dict.{Dict, get_or-set}
use llm_inference.Dag.{
  DagNode, RequestDag, add_kids, children_of, childless, children, indegrees, insert_sorted, sorted,
  roots, visit_kids, visit_layer, kahn_loop, kahn, layers, seen, parents_known,
}

module _ (P : Text → Type 0) where
  insert_sorted-All : (x : Text) (ys : List Text) → P x → All P ys → All P (insert_sorted x ys)
  unfolding insert_sorted
  insert_sorted-All x [] hx hy = (hx, tt)
  insert_sorted-All x (y ∷ ys) hx hy = elim (Bool-cases (text_ltb y x)) [
    | inl less ↦ rw less (hy.0, insert_sorted-All x ys hx hy.1)
    | inr more ↦ rw more (hx, (hy.0, hy.1))
  ]

  sorted-All : (xs : List Text) → All P xs → All P (sorted xs)
  unfolding sorted
  sorted-All [] h = tt
  sorted-All (x ∷ xs) h = insert_sorted-All x (sorted xs) h.0 (sorted-All xs h.1)

  roots-All : (d : RequestDag) → All P (Dict.keys d) → All P (roots (indegrees d))
  roots-All [] h = tt
  roots-All ((k, n) ∷ d) h = elim (Bool-cases (length n.parents == 0)) [
    | inl root ↦ rw root (h.0, roots-All d h.1)
    | inr other ↦ rw other (roots-All d h.1)
  ]

  -- Every list of children is of ids of nodes.
  abbrev KidsAll : Dict Text (List Text) → Type 0
  KidsAll kids = (p : Text) → All P (Dict.get_or p [] kids)

  one_of : (b : Bool) (xs ys : List Text) → All P xs → All P ys → All P (if b then xs else ys)
  one_of true xs ys hx hy = hx
  one_of false xs ys hx hy = hy

  add_kids-All :
      (c : Text) (ps : List Text) (kids : Dict Text (List Text))
      → P c
      → KidsAll kids
      → KidsAll (add_kids c ps kids)
  unfolding add_kids
  add_kids-All c [] kids hc h = h
  add_kids-All c (p ∷ ps) kids hc h =
      add_kids-All c ps (Dict.set p (Dict.get_or p [] kids ++ c ∷ []) kids) hc (λ j.
        rw (get_or-set p j (Dict.get_or p [] kids ++ c ∷ []) [] kids) (
          one_of (p == j) (Dict.get_or p [] kids ++ c ∷ []) (Dict.get_or j [] kids)
            (All-append P (Dict.get_or p [] kids) (c ∷ []) (h p) (hc, tt)) (h j)))

  children_of-All :
      (ns : List DagNode) (kids : Dict Text (List Text))
      → All (λ n. P n.id) ns
      → KidsAll kids
      → KidsAll (children_of ns kids)
  unfolding children_of
  children_of-All [] kids hn h = h
  children_of-All (n ∷ ns) kids hn h =
      children_of-All ns (add_kids n.id n.parents kids) hn.1
        (add_kids-All n.id n.parents kids hn.0 h)

  childless-All : (d : RequestDag) → KidsAll (childless d)
  unfolding Dict.get_or
  childless-All [] p = tt
  childless-All ((k, n) ∷ d) p =
      one_of (k == p) [] (Dict.get_or p [] (childless d)) tt (childless-All d p)

  visit_kids-All :
      (cs : List Text) (indeg : Dict Text ℕ) (frontier : List Text)
      → All P cs
      → All P frontier
      → All P (visit_kids cs indeg frontier).1
  unfolding visit_kids
  visit_kids-All [] indeg frontier hc hf = hf
  visit_kids-All (c ∷ cs) indeg frontier hc hf =
      let n = Dict.get_or c 0 indeg in
      visit_kids-All cs (Dict.set c (n - 1) indeg) (if n == 1 then frontier ++ c ∷ [] else frontier)
        hc.1
        (one_of (n == 1) (frontier ++ c ∷ []) frontier
          (All-append P frontier (c ∷ []) hf (hc.0, tt)) hf)

  visit_layer-All :
      (kids : Dict Text (List Text)) (layer : List Text) (indeg : Dict Text ℕ)
      (frontier : List Text)
      → KidsAll kids
      → All P frontier
      → All P (visit_layer kids layer indeg frontier).1
  unfolding visit_layer
  visit_layer-All kids [] indeg frontier hk hf = hf
  visit_layer-All kids (nid ∷ layer) indeg frontier hk hf =
      let (indeg', frontier') = visit_kids (Dict.get_or nid [] kids) indeg frontier in
      visit_layer-All kids layer indeg' frontier' hk
        (visit_kids-All (Dict.get_or nid [] kids) indeg frontier (hk nid) hf)

  kahn_loop-All :
      (n : ℕ) (kids : Dict Text (List Text)) (indeg : Dict Text ℕ) (frontier : List Text)
      → KidsAll kids
      → All P frontier
      → All (All P) (kahn_loop n kids indeg frontier)
  unfolding kahn_loop
  kahn_loop-All zero kids indeg frontier hk hf = tt
  kahn_loop-All (suc n) kids indeg [] hk hf = tt
  kahn_loop-All (suc n) kids indeg (f ∷ frontier) hk hf =
      let layer = sorted (f ∷ frontier) in
      let (indeg', frontier') = visit_layer kids layer indeg [] in
      (
        sorted-All (f ∷ frontier) hf,
        kahn_loop-All n kids indeg' frontier' hk (visit_layer-All kids layer indeg [] hk tt),
      )

  -- What holds of all ids of nodes holds of all ids in the layers.
  pub layers-All :
      (d : RequestDag) (ls : List (List Text))
      → All P (Dict.keys d)
      → All (λ n. P n.id) (Dict.values d)
      → layers d ≡ some ls
      → All (All P) ls × (seen ls ≡ length d)
  unfolding layers kahn children
  layers-All d ls hk hn e =
      let found = kahn_loop (length d) (children d) (indegrees d) (sorted (roots (indegrees d))) in
      elim (Bool-cases (parents_known d (Dict.values d))) [
        | inr unknown ↦ let e' = rw unknown at e in absurd (none-ne-some _ e')
        | inl known ↦ elim (Bool-cases (seen found == length d)) [
          | inr cyclic ↦ let e' = rw (known, cyclic) at e in absurd (none-ne-some _ e')
          | inl whole ↦
              let e' = rw (known, whole) at e in
              let same = some-injective _ _ e' in
              rw⁻¹ same (
                kahn_loop-All (length d) (children d) (indegrees d) (sorted (roots (indegrees d)))
                    (children_of-All (Dict.values d) (childless d) hn (childless-All d))
                    (sorted-All (roots (indegrees d)) (roots-All d hk)),
                (eq_iff (seen found) (length d)).0 whole,
              )
        ]
      ]
