-- ===== src/Dag/Order.antt =====
-- gateway/dag/graph.py: the order of the layers.
use mathlib.Core.Option.{some-injective, none-ne-some}
use llm_inference.Base.{
  ℕ, zero, suc, ◌≡◌, refl, sym, ap, ◌∙◌, inl, inr, true, false, none, some, List, [], ◌∷◌, ◌==◌,
  nat_eq, eq_iff, length, arith, All, contains, Bool-cases,
}
use llm_inference.Base.Text.{Text, text_eq}
use llm_inference.Base.Dict
use llm_inference.Base.Dict.{Dict, IsDict, get_or-set}
use llm_inference.Dag.{
  DagNode, RequestDag, children, indegrees, sorted, roots, visit_kids, visit_layer, kahn_loop, kahn,
  layers, seen, parents_known,
}
use llm_inference.Dag.Placement.{IsNamed}
use llm_inference.Dag.Counting.{
  count-children, get_or-visit_kids, unmet, unmet-none, unmet-more, unmet-zero,
}
use llm_inference.Dag.Frontier.{
  Zero, Away, Distinct, Zero-visit_kids, frontier-visit_kids, away-visit_kids, contains-sorted,
  Distinct-sorted,
}

-- Between two visits: `done` has been visited, and `rest` is what is left of the layer.
record Mid (d : RequestDag) (done : List Text) (indeg : Dict Text ℕ) (rest frontier : List Text)
    : Type 0 where
  counts :
      (c : Text) (n : DagNode)
      → Dict.get c d ≡ some n
      → Dict.get_or c 0 indeg ≡ unmet done n.parents
  done_zero : Zero indeg done
  rest_zero : Zero indeg rest
  frontier_zero : Zero indeg frontier
  rest_distinct : Distinct rest
  frontier_distinct : Distinct frontier
  rest_new : Away rest done
  frontier_new : Away done frontier
  rest_off : Away rest frontier

-- The ids of a layer, visited one after the other.
unfoldable pub visited : List Text → List Text → List Text
visited [] done = done
visited (x ∷ xs) done = visited xs (x ∷ done)

visit-Mid :
    (d : RequestDag) (done : List Text) (indeg : Dict Text ℕ) (x : Text) (rest frontier : List Text)
    → IsNamed d
    → IsDict d
    → Mid d done indeg (x ∷ rest) frontier
    → let (indeg', frontier') = visit_kids (Dict.get_or x [] (children d)) indeg frontier in
      Mid d (x ∷ done) indeg' rest frontier'
unfolding contains
visit-Mid d done indeg x rest frontier named v m =
    let cs = Dict.get_or x [] (children d) in
    let here : contains x (x ∷ rest) ≡ true = ground (arith, eq_iff x x) in
    let front = frontier-visit_kids cs indeg frontier m.frontier_zero m.frontier_distinct in
    record {
      counts = λ c n e.
          get_or-visit_kids c cs indeg frontier
          ∙ ground (
            arith,
            m.counts c n e,
            count-children c x d n named v e,
            unmet-more x done n.parents (m.rest_new x here),
          );
      done_zero = Zero-visit_kids cs indeg frontier (x ∷ done) (λ y h. elim (Bool-cases (x == y)) [
        | inl same ↦ rw⁻¹ ((eq_iff x y).0 same) (m.rest_zero x here)
        | inr other ↦ m.done_zero y (ground (arith, h, other))
      ]);
      rest_zero = Zero-visit_kids cs indeg frontier rest (λ y h. m.rest_zero y (ground (arith, h)));
      frontier_zero = front.0;
      rest_distinct = m.rest_distinct.1;
      frontier_distinct = front.1;
      rest_new = λ y h.
          ground (arith, eq_iff x y, h, m.rest_distinct.0, m.rest_new y, ap (λ z. contains z rest));
      frontier_new = λ y h. elim (Bool-cases (x == y)) [
        | inl same ↦
            rw⁻¹ ((eq_iff x y).0 same)
              (away-visit_kids x cs indeg frontier (m.rest_zero x here) (m.rest_off x here))
        | inr other ↦
            let old : contains y done ≡ true = ground (arith, h, other) in
            away-visit_kids y cs indeg frontier (m.done_zero y old) (m.frontier_new y old)
      ];
      rest_off = λ y h.
          let old : contains y (x ∷ rest) ≡ true = ground (arith, h) in
          away-visit_kids y cs indeg frontier (m.rest_zero y old) (m.rest_off y old);
    }

visit_layer-Mid :
    (d : RequestDag) (done : List Text) (indeg : Dict Text ℕ) (layer frontier : List Text)
    → IsNamed d
    → IsDict d
    → Mid d done indeg layer frontier
    → let (indeg', frontier') = visit_layer (children d) layer indeg frontier in
      Mid d (visited layer done) indeg' [] frontier'
unfolding visit_layer visited
visit_layer-Mid d done indeg [] frontier named v m = m
visit_layer-Mid d done indeg (x ∷ layer) frontier named v m =
    let (indeg', frontier') = visit_kids (Dict.get_or x [] (children d)) indeg frontier in
    visit_layer-Mid d (x ∷ done) indeg' layer frontier' named v
      (visit-Mid d done indeg x layer frontier named v m)

-- Every parent of an id of a layer is among `done`, the ids of the layers before it.
abbrev pub Layered : RequestDag → List Text → List (List Text) → Type 0
Layered d done [] = Unit
Layered d done (l ∷ ls) =
    ((c : Text) (n : DagNode)
      → contains c l ≡ true
      → Dict.get c d ≡ some n
      → All (λ p. contains p done ≡ true) n.parents)
    × Layered d (visited l done) ls

-- A frontier that becomes the next layer.
layer-Mid :
    (d : RequestDag) (done : List Text) (indeg : Dict Text ℕ) (frontier : List Text)
    → Mid d done indeg [] frontier
    → Mid d done indeg (sorted frontier) []
unfolding contains
layer-Mid d done indeg frontier m = record {
  counts = m.counts;
  done_zero = m.done_zero;
  rest_zero = λ x h. m.frontier_zero x (sym (contains-sorted x frontier) ∙ h);
  frontier_zero = λ x h. absurd (ground (arith, h));
  rest_distinct = Distinct-sorted frontier m.frontier_distinct;
  frontier_distinct = tt;
  rest_new = λ x h. elim (Bool-cases (contains x done)) [
    | inl old ↦ absurd (ground (arith, m.frontier_new x old, sym (contains-sorted x frontier) ∙ h))
    | inr new ↦ new
  ];
  frontier_new = λ x h. refl;
  rest_off = λ x h. refl;
}

loop-Layered :
    (n : ℕ) (d : RequestDag) (done : List Text) (indeg : Dict Text ℕ) (frontier : List Text)
    → IsNamed d
    → IsDict d
    → Mid d done indeg [] frontier
    → Layered d done (kahn_loop n (children d) indeg frontier)
unfolding kahn_loop
loop-Layered zero d done indeg frontier named v m = tt
loop-Layered (suc n) d done indeg [] named v m = tt
loop-Layered (suc n) d done indeg (f ∷ frontier) named v m =
    let layer = sorted (f ∷ frontier) in
    let (indeg', frontier') = visit_layer (children d) layer indeg [] in
    let start = layer-Mid d done indeg (f ∷ frontier) m in
    (
      (λ c k h e. unmet-zero done k.parents (sym (start.counts c k e) ∙ start.rest_zero c h)),
      loop-Layered n d (visited layer done) indeg' frontier' named v
          (visit_layer-Mid d done indeg layer [] named v start),
    )

indegrees-get :
    (c : Text) (d : RequestDag) (n : DagNode)
    → Dict.get c d ≡ some n
    → Dict.get_or c 0 (indegrees d) ≡ length n.parents
unfolding Dict.get Dict.get_or
indegrees-get c [] n e = absurd (none-ne-some _ e)
indegrees-get c ((k, m) ∷ d) n e = elim (Bool-cases (k == c)) [
  | inl same ↦
      let e' = rw same at e in
      let is = some-injective _ _ e' in
      rw (Dict.get_or, same) (ap (λ (x : DagNode). length x.parents) is)
  | inr other ↦ let e' = rw other at e in rw (Dict.get_or, other) (indegrees-get c d n e')
]

-- An id without an entry is no root.
absent-roots :
    (x : Text) (d : RequestDag) → Dict.get x d ≡ none → contains x (roots (indegrees d)) ≡ false
unfolding Dict.get contains
absent-roots x [] e = refl
absent-roots x ((k, n) ∷ d) e = ground (arith, eq_iff k x, e, absent-roots x d)

roots-Zero : (d : RequestDag) → IsDict d → Zero (indegrees d) (roots (indegrees d))
unfolding contains Dict.get_or
roots-Zero [] v x h = refl
roots-Zero ((k, n) ∷ d) v x h = elim (Bool-cases (k == x)) [
  | inl same ↦ elim (Bool-cases (length n.parents == 0)) [
    | inl root ↦ rw same ((eq_iff (length n.parents) 0).0 root)
    | inr other ↦
        let q = (eq_iff k x).0 same in
        absurd (ground (arith, other, h, absent-roots x d (rw q at v.0)))
  ]
  | inr off ↦ rw off (roots-Zero d v.1 x (ground (arith, h, off)))
]

roots-Distinct : (d : RequestDag) → IsDict d → Distinct (roots (indegrees d))
roots-Distinct [] v = tt
roots-Distinct ((k, n) ∷ d) v = elim (Bool-cases (length n.parents == 0)) [
  | inl root ↦ rw root (absent-roots k d v.0, roots-Distinct d v.1)
  | inr other ↦ rw other (roots-Distinct d v.1)
]

first-Mid : (d : RequestDag) → IsDict d → Mid d [] (indegrees d) [] (sorted (roots (indegrees d)))
unfolding contains
first-Mid d v =
    let rs = roots (indegrees d) in
    record {
      counts = λ c n e. indegrees-get c d n e ∙ sym (unmet-none n.parents);
      done_zero = λ x h. absurd (ground (arith, h));
      rest_zero = λ x h. absurd (ground (arith, h));
      frontier_zero = λ x h. roots-Zero d v x (sym (contains-sorted x rs) ∙ h);
      rest_distinct = tt;
      frontier_distinct = Distinct-sorted rs (roots-Distinct d v);
      rest_new = λ x h. refl;
      frontier_new = λ x h. absurd (ground (arith, h));
      rest_off = λ x h. absurd (ground (arith, h));
    }

-- In the layers of a graph whose ids differ from one another, and whose nodes stand under their own
-- ids, every parent of a node of a layer is in an earlier layer.
pub layers-Layered :
    (d : RequestDag) (ls : List (List Text))
    → IsNamed d
    → IsDict d
    → layers d ≡ some ls
    → Layered d [] ls
unfolding layers kahn
layers-Layered d ls named v e =
    let first = sorted (roots (indegrees d)) in
    let found = kahn_loop (length d) (children d) (indegrees d) first in
    elim (Bool-cases (parents_known d (Dict.values d))) [
      | inr unknown ↦ let e' = rw unknown at e in absurd (none-ne-some _ e')
      | inl known ↦ elim (Bool-cases (seen found == length d)) [
        | inr cyclic ↦ let e' = rw (known, cyclic) at e in absurd (none-ne-some _ e')
        | inl whole ↦
            let e' = rw (known, whole) at e in
            let same = some-injective _ _ e' in
            rw⁻¹ same (loop-Layered (length d) d [] (indegrees d) first named v (first-Mid d v))
      ]
    ]
