-- ===== src/Radix/Shape/Insertion.antt =====
-- gateway/radix_tree.py: insertion, the shape of the tree and the fuel of the loops.
use llm_inference.Base.{
  ℕ, zero, suc, ◌+◌, ◌≤◌, ◌<◌, ◌≡◌, refl, Option, some, List, [], ◌∷◌, arith, ◌==◌, nat_eq, length,
  drop, inl, inr, Option-cases, Bool-cases,
}
use llm_inference.Base.Text.{Text, text_eq}
use llm_inference.Base.Dict
use llm_inference.Base.Dict.{Dict, get-set}
use llm_inference.Radix.{
  RadixTree, common, hold, track_all, link, add_leaf, split_node, split_child, insert_from,
}
use llm_inference.Base.{length-drop}
use llm_inference.Radix.{match_from, survivors, set_all}
use llm_inference.Radix.Shape.{
  child_of, edge_of, IsShaped, SameShape-IsShaped, hold-SameShape, track_all-SameShape,
  link-IsShaped, common_pos,
}
use llm_inference.Radix.Shape.SplitNode.{split_node-IsShaped}

-- At a child that is not consumed whole, the offset lies inside the edge.
common-le-edge : (e hashes : List ℕ) → common e hashes ≤ length e
unfolding common
common-le-edge [] hashes = omega arith
common-le-edge (x ∷ e) [] = omega arith
common-le-edge (x ∷ e) (h ∷ hashes) = ground (arith, common-le-edge e hashes)

add_leaf-IsShaped :
    (b : Text) (node : ℕ) (hashes : List ℕ) (t : RadixTree)
    → node < t.next
    → IsShaped t
    → IsShaped (add_leaf b node hashes t)
unfolding add_leaf
add_leaf-IsShaped b node [] t inside o = o
add_leaf-IsShaped b node (h ∷ hashes) t inside o =
    SameShape-IsShaped (hold-SameShape b t.next (link node (h ∷ hashes) t))
      (link-IsShaped node h hashes t inside o)

split_child-IsShaped :
    (b : Text) (node child h : ℕ) (hashes : List ℕ) (t : RadixTree)
    → child_of t node h ≡ some child
    → common (edge_of t child) (h ∷ hashes) < length (edge_of t child)
    → IsShaped t
    → IsShaped (split_child b node child h hashes t)
unfolding split_child split_node
split_child-IsShaped b node child h hashes t found inside o =
    let j = common (edge_of t child) (h ∷ hashes) in
    let bs = Dict.keys (t.heap child).holders in
    let t' = split_node node child h j t in
    let tracked = track_all bs t.next t' in
    let split =
      split_node-IsShaped node child h j t found
        (common_pos (edge_of t child) h hashes (o.keyed node h child found)) inside o in
    let same = track_all-SameShape bs t.next t' in
    let same' = hold-SameShape b t.next tracked in
    add_leaf-IsShaped b t.next (drop j (h ∷ hashes)) (hold b t.next tracked)
      (omega (arith, same.next, same'.next))
      (SameShape-IsShaped same' (SameShape-IsShaped same split))

pub insert_from-IsShaped :
    (fuel : ℕ) (b : Text) (node : ℕ) (hashes : List ℕ) (t : RadixTree)
    → node < t.next
    → IsShaped t
    → IsShaped (insert_from fuel b node hashes t)
unfolding insert_from
insert_from-IsShaped zero b node hashes t inside o = o
insert_from-IsShaped (suc fuel) b node [] t inside o = o
insert_from-IsShaped (suc fuel) b node (h ∷ hashes) t inside o =
    elim (Option-cases (child_of t node h)) [
      | inl missing ↦ rw (missing, insert_from) (add_leaf-IsShaped b node (h ∷ hashes) t inside o)
      | inr (child, found) ↦
          let j = common (edge_of t child) (h ∷ hashes) in
          let same = hold-SameShape b child t in
          elim (Bool-cases (j == length (edge_of t child))) [
            | inl whole ↦
                rw (found, insert_from)
                  (rw whole (
                    insert_from-IsShaped fuel b child (drop j (h ∷ hashes)) (hold b child t)
                      (omega (arith, same.next, o.linked node h child found))
                      (SameShape-IsShaped same o)))
            | inr part ↦
                rw (found, insert_from)
                  (rw part (
                    split_child-IsShaped b node child h hashes t found
                      (ground (arith, common-le-edge (edge_of t child) (h ∷ hashes))) o))
          ]
    ]

-- On a tree of this shape the walk of `match` does not depend on the fuel, once there is one unit of
-- it for each block: the loop ends by itself.
pub match_from_fuel :
    (f g : ℕ) (t : RadixTree) (node : ℕ) (best : Dict Text ℕ) (alive : Option (List Text))
    (depth : ℕ) (hashes : List ℕ)
    → IsShaped t
    → length hashes ≤ f
    → length hashes ≤ g
    → match_from f t.heap node best alive depth hashes
      ≡ match_from g t.heap node best alive depth hashes
unfolding match_from
match_from_fuel zero zero t node best alive depth hashes o p q = refl
match_from_fuel zero (suc g) t node best alive depth [] o p q = refl
match_from_fuel zero (suc g) t node best alive depth (h ∷ hashes) o p q = absurd (omega arith)
match_from_fuel (suc f) zero t node best alive depth [] o p q = refl
match_from_fuel (suc f) zero t node best alive depth (h ∷ hashes) o p q = absurd (omega arith)
match_from_fuel (suc f) (suc g) t node best alive depth [] o p q = refl
match_from_fuel (suc f) (suc g) t node best alive depth (h ∷ hashes) o p q =
    elim (Option-cases (child_of t node h)) [
      | inl missing ↦ rw (missing, match_from)
      | inr (child, found) ↦
          let j = common (edge_of t child) (h ∷ hashes) in
          let left = survivors alive (Dict.keys (t.heap child).holders) in
          let rest = drop j (h ∷ hashes) in
          let short : suc (length rest) ≤ suc (length hashes) = omega (
            arith,
            length-drop j (h ∷ hashes),
            common_pos (edge_of t child) h hashes (o.keyed node h child found),
          ) in
          rw (found, match_from)
            (ground (
              arith,
              match_from_fuel f g t child (set_all left (depth + j) best) (some left) (depth + j)
                  rest o (omega arith) (omega arith),
            ))
    ]

-- Nor does the walk of `insert`.
pub insert_from_fuel :
    (f g : ℕ) (b : Text) (node : ℕ) (hashes : List ℕ) (t : RadixTree)
    → IsShaped t
    → length hashes ≤ f
    → length hashes ≤ g
    → insert_from f b node hashes t ≡ insert_from g b node hashes t
unfolding insert_from
insert_from_fuel zero zero b node hashes t o p q = refl
insert_from_fuel zero (suc g) b node [] t o p q = refl
insert_from_fuel zero (suc g) b node (h ∷ hashes) t o p q = absurd (omega arith)
insert_from_fuel (suc f) zero b node [] t o p q = refl
insert_from_fuel (suc f) zero b node (h ∷ hashes) t o p q = absurd (omega arith)
insert_from_fuel (suc f) (suc g) b node [] t o p q = refl
insert_from_fuel (suc f) (suc g) b node (h ∷ hashes) t o p q =
    elim (Option-cases (child_of t node h)) [
      | inl missing ↦ rw (missing, insert_from)
      | inr (child, found) ↦
          let j = common (edge_of t child) (h ∷ hashes) in
          let rest = drop j (h ∷ hashes) in
          let short : suc (length rest) ≤ suc (length hashes) = omega (
            arith,
            length-drop j (h ∷ hashes),
            common_pos (edge_of t child) h hashes (o.keyed node h child found),
          ) in
          rw (found, insert_from)
            (ground (
              arith,
              insert_from_fuel f g b child rest (hold b child t)
                  (SameShape-IsShaped (hold-SameShape b child t) o) (omega arith) (omega arith),
            ))
    ]
