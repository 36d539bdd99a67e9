-- ===== src/Dag/Counting.antt =====
-- gateway/dag/graph.py: the counts of the layering against the edges of the graph.
use mathlib.Core.Option.{some-injective, none-ne-some}
use llm_inference.Base.{
  ℕ, ◌+◌, ◌-◌, ◌≡◌, refl, ap, ◌∙◌, inl, inr, true, false, none, some, List, [], ◌∷◌, ◌++◌, ◌==◌,
  nat_eq, eq_iff, if◌then◌else◌, length, arith, All, contains, Bool-cases,
}
use llm_inference.Base.Text.{Text, text_eq}
use llm_inference.Base.Dict
use llm_inference.Base.Dict.{Dict, IsDict, get_or-set}
use llm_inference.Dag.{DagNode, RequestDag, add_kids, children_of, childless, children, visit_kids}
use llm_inference.Dag.Placement.{IsNamed}

unfoldable pub count : Text → List Text → ℕ
count x [] = 0
count x (y ∷ ys) = let rest = count x ys in if y == x then rest + 1 else rest

count-append : (x : Text) (ys zs : List Text) → count x (ys ++ zs) ≡ count x ys + count x zs
unfolding count
count-append x [] zs = omega arith
count-append x (y ∷ ys) zs = ground (arith, count-append x ys zs)

count-one : (x y : Text) → count x (y ∷ []) ≡ (if y == x then 1 else 0)
unfolding count
count-one x y = ground arith

count-add_kids :
    (c p x : Text) (ps : List Text) (kids : Dict Text (List Text))
    → count c (Dict.get_or p [] (add_kids x ps kids))
      ≡ count c (Dict.get_or p [] kids) + (if x == c then count p ps else 0)
unfolding add_kids count
count-add_kids c p x [] kids = ground arith
count-add_kids c p x (q ∷ ps) kids =
    let added = Dict.get_or q [] kids ++ x ∷ [] in
    let kids' = Dict.set q added kids in
    let here : count c (Dict.get_or p [] kids')
        ≡ count c (Dict.get_or p [] kids) + (if q == p then (if x == c then 1 else 0) else 0) =
      ap (count c) (get_or-set q p added [] kids) ∙ elim (Bool-cases (q == p)) [
        | inl same ↦
            let e = (eq_iff q p).0 same in
            rw same (
              count-append c (Dict.get_or q [] kids) (x ∷ [])
              ∙ ground (arith, count-one c x, ap (λ y. count c (Dict.get_or y [] kids)) e))
        | inr other ↦ rw other (omega arith)
      ] in
    count-add_kids c p x ps kids' ∙ ground (arith, here)

-- The edges from `p` to a node `c` among some nodes.
unfoldable pub edges : Text → Text → List DagNode → ℕ
edges c p [] = 0
edges c p (n ∷ ns) = (if n.id == c then count p n.parents else 0) + edges c p ns

count-children_of :
    (c p : Text) (ns : List DagNode) (kids : Dict Text (List Text))
    → count c (Dict.get_or p [] (children_of ns kids))
      ≡ count c (Dict.get_or p [] kids) + edges c p ns
unfolding children_of edges
count-children_of c p [] kids = omega arith
count-children_of c p (n ∷ ns) kids = omega (
  arith,
  count-children_of c p ns (add_kids n.id n.parents kids),
  count-add_kids c p n.id n.parents kids,
)

count-childless : (c p : Text) (d : RequestDag) → count c (Dict.get_or p [] (childless d)) ≡ 0
unfolding count Dict.get_or
count-childless c p [] = refl
count-childless c p ((k, n) ∷ d) = ground (arith, count-childless c p d)

edges-absent :
    (c p : Text) (d : RequestDag) → IsNamed d → Dict.get c d ≡ none → edges c p (Dict.values d) ≡ 0
unfolding edges Dict.get
edges-absent c p [] h e = refl
edges-absent c p ((k, n) ∷ d) h e =
    ground (arith, eq_iff k c, eq_iff n.id c, h.0, edges-absent c p d h.1)

edges-get :
    (c p : Text) (d : RequestDag) (n : DagNode)
    → IsNamed d
    → IsDict d
    → Dict.get c d ≡ some n
    → edges c p (Dict.values d) ≡ count p n.parents
unfolding edges Dict.get
edges-get c p [] n h v e = absurd (none-ne-some _ e)
edges-get c p ((k, m) ∷ d) n h v e = elim (Bool-cases (k == c)) [
  | inl same ↦
      let q = (eq_iff k c).0 same in
      let e' = rw same at e in
      let is = some-injective _ _ e' in
      let gone = edges-absent c p d h.1 (rw q at v.0) in
      ground (arith, eq_iff m.id c, h.0, q, gone, ap (λ (x : DagNode). count p x.parents) is)
  | inr other ↦
      let e' = rw other at e in
      ground (arith, eq_iff k c, eq_iff m.id c, h.0, other, edges-get c p d n h.1 v.1 e')
]

-- A node stands among the children of `p` as often as `p` among its parents.
pub count-children :
    (c p : Text) (d : RequestDag) (n : DagNode)
    → IsNamed d
    → IsDict d
    → Dict.get c d ≡ some n
    → count c (Dict.get_or p [] (children d)) ≡ count p n.parents
unfolding children
count-children c p d n h v e = omega (
  arith,
  count-children_of c p (Dict.values d) (childless d),
  count-childless c p d,
  edges-get c p d n h v e,
)

pub get_or-visit_kids :
    (c : Text) (cs : List Text) (indeg : Dict Text ℕ) (frontier : List Text)
    → Dict.get_or c 0 (visit_kids cs indeg frontier).0 ≡ Dict.get_or c 0 indeg - count c cs
unfolding visit_kids count
get_or-visit_kids c [] indeg frontier = omega arith
get_or-visit_kids c (x ∷ cs) indeg frontier =
    let n = Dict.get_or x 0 indeg in
    get_or-visit_kids c cs (Dict.set x (n - 1) indeg)
      (if n == 1 then frontier ++ x ∷ [] else frontier)
    ∙ ground (arith, get_or-set x c (n - 1) 0 indeg, eq_iff x c, ap (λ y. Dict.get_or y 0 indeg))

-- The parents that are not among `done`.
unfoldable pub unmet : List Text → List Text → ℕ
unmet done [] = 0
unmet done (p ∷ ps) = let rest = unmet done ps in if contains p done then rest else rest + 1

pub unmet-none : (ps : List Text) → unmet [] ps ≡ length ps
unfolding unmet contains
unmet-none [] = refl
unmet-none (p ∷ ps) = ground (arith, unmet-none ps)

pub unmet-more :
    (x : Text) (done ps : List Text)
    → contains x done ≡ false
    → unmet done ps ≡ unmet (x ∷ done) ps + count x ps
unfolding unmet count contains
unmet-more x done [] h = refl
unmet-more x done (p ∷ ps) h =
    ground (arith, eq_iff x p, eq_iff p x, unmet-more x done ps h, ap (λ y. contains y done), h)

pub unmet-zero : (done ps : List Text) → unmet done ps ≡ 0 → All (λ p. contains p done ≡ true) ps
unfolding unmet
unmet-zero done [] h = tt
unmet-zero done (p ∷ ps) h = elim (Bool-cases (contains p done)) [
  | inl met ↦ let h' = rw met at h in (met, unmet-zero done ps h')
  | inr open_one ↦ let h' = rw open_one at h in absurd (ground (arith, h'))
]
