-- ===== src/Dag.antt =====
-- gateway/dag/graph.py: the graph of requests and its layers. `none` is a DagError, or a KeyError on an
-- unknown id.
pub mod Schedule
mod Spread
mod Layers
mod Choosing
mod Placement
mod Counting
mod Frontier
mod Order
mod Tests
use llm_inference.Base.{
  ℕ, zero, suc, ◌+◌, ◌-◌, Bool, true, false, not, ◌&&◌, Option, none, some, List, [], ◌∷◌, ◌++◌,
  ◌==◌, nat_eq, if◌then◌else◌, length, map,
}
use llm_inference.Base.Text.{Text, text_eq, text_ltb}
use llm_inference.Base.Dict
use llm_inference.Base.Dict.{Dict}

pub record DagNode : Type 0 where
  pub id : Text
  pub prompt : Text
  pub parents : List Text

-- `self.nodes`
abbrev pub RequestDag : Type 0
RequestDag = Dict Text DagNode

unfoldable pub add : DagNode → RequestDag → Option RequestDag
add n d = if Dict.has n.id d then none else some (Dict.set n.id n d)

-- The constructor, on what it has built so far.
unfoldable pub add_all : List DagNode → RequestDag → Option RequestDag
unfolding add
add_all [] d = some d
add_all (n ∷ ns) d = elim (add n d) [ none ↦ none | some d' ↦ add_all ns d' ]

abbrev pub all_known : RequestDag → List Text → Bool
all_known d [] = true
all_known d (p ∷ ps) = Dict.has p d && all_known d ps

-- Every parent is a node.
abbrev pub parents_known : RequestDag → List DagNode → Bool
parents_known d [] = true
parents_known d (n ∷ ns) = all_known d n.parents && parents_known d ns

-- `for p in n.parents: kids[p].append(n.id)`
unfoldable pub add_kids : Text → List Text → Dict Text (List Text) → Dict Text (List Text)
add_kids c [] kids = kids
add_kids c (p ∷ ps) kids = add_kids c ps (Dict.set p (Dict.get_or p [] kids ++ c ∷ []) kids)

unfoldable pub children_of : List DagNode → Dict Text (List Text) → Dict Text (List Text)
unfolding add_kids
children_of [] kids = kids
children_of (n ∷ ns) kids = children_of ns (add_kids n.id n.parents kids)

abbrev pub childless : RequestDag → Dict Text (List Text)
childless [] = []
childless ((k, n) ∷ d) = (k, []) ∷ childless d

unfoldable pub children : RequestDag → Dict Text (List Text)
unfolding children_of
children d = children_of (Dict.values d) (childless d)

abbrev pub indegrees : RequestDag → Dict Text ℕ
indegrees [] = []
indegrees ((k, n) ∷ d) = (k, length n.parents) ∷ indegrees d

unfoldable pub insert_sorted : Text → List Text → List Text
insert_sorted x [] = x ∷ []
insert_sorted x (y ∷ ys) =
    let rest = insert_sorted x ys in if text_ltb y x then y ∷ rest else x ∷ y ∷ ys

unfoldable pub sorted : List Text → List Text
unfolding insert_sorted
sorted [] = []
sorted (x ∷ xs) = insert_sorted x (sorted xs)

abbrev pub roots : Dict Text ℕ → List Text
roots [] = []
roots ((k, n) ∷ d) = let rest = roots d in if n == 0 then k ∷ rest else rest

-- `for c in kids[nid]: …`; a count that reaches 0 puts the child on the frontier.
unfoldable pub visit_kids : List Text → Dict Text ℕ → List Text → Dict Text ℕ × List Text
visit_kids [] indeg frontier = (indeg, frontier)
visit_kids (c ∷ cs) indeg frontier =
    let n = Dict.get_or c 0 indeg in
    visit_kids cs (Dict.set c (n - 1) indeg) (if n == 1 then frontier ++ c ∷ [] else frontier)

unfoldable pub visit_layer :
    Dict Text (List Text) → List Text → Dict Text ℕ → List Text → Dict Text ℕ × List Text
unfolding visit_kids
visit_layer kids [] indeg frontier = (indeg, frontier)
visit_layer kids (nid ∷ layer) indeg frontier =
    let (indeg', frontier') = visit_kids (Dict.get_or nid [] kids) indeg frontier in
    visit_layer kids layer indeg' frontier'

-- The loop `while frontier`, of which `n` rounds are left.
unfoldable pub kahn_loop : ℕ → Dict Text (List Text) → Dict Text ℕ → List Text → List (List Text)
unfolding visit_layer
kahn_loop zero kids indeg frontier = []
kahn_loop (suc n) kids indeg [] = []
kahn_loop (suc n) kids indeg (f ∷ frontier) =
    let layer = sorted (f ∷ frontier) in
    let (indeg', frontier') = visit_layer kids layer indeg [] in
    layer ∷ kahn_loop n kids indeg' frontier'

-- `seen`: the number of ids in the layers
unfoldable pub seen : List (List Text) → ℕ
seen [] = 0
seen (l ∷ ls) = length l + seen ls

-- The ids that are on the frontier first are sorted there already.
unfoldable pub kahn : RequestDag → Option (List (List Text))
unfolding kahn_loop children sorted seen
kahn d =
    let indeg = indegrees d in
    let ls = kahn_loop (length d) (children d) indeg (sorted (roots indeg)) in
    if seen ls == length d then some ls else none

-- `validate`, and then `layers`
unfoldable pub layers : RequestDag → Option (List (List Text))
unfolding kahn
layers d = if parents_known d (Dict.values d) then kahn d else none
