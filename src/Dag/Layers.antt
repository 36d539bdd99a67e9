-- ===== src/Dag/Layers.antt =====
-- gateway/dag/graph.py: the rounds of the layering.
use llm_inference.Base.{
  ℕ, zero, suc, ◌+◌, ◌-◌, ◌≤◌, ◌≡◌, refl, ap, ◌∙◌, Bool, true, false, List, [], ◌∷◌, ◌++◌, ◌==◌,
  nat_eq, eq_iff, if◌then◌else◌, length, length-append, arith,
}
use llm_inference.Base.Text.{Text, text_eq}
use llm_inference.Base.Dict
use llm_inference.Base.Dict.{Dict, get_or-set}
use llm_inference.Dag.{
  RequestDag, children, indegrees, insert_sorted, sorted, roots, visit_kids, visit_layer, kahn_loop,
}

-- The ids that still wait for a parent.
unfoldable pub waiting : Dict Text ℕ → ℕ
waiting [] = 0
waiting ((k, n) ∷ d) = let rest = waiting d in if n == 0 then rest else rest + 1

waiting-set :
    (c : Text) (n : ℕ) (d : Dict Text ℕ)
    → n ≡ Dict.get_or c 0 d
    → waiting (Dict.set c (n - 1) d) + (if n == 1 then 1 else 0) ≡ waiting d
unfolding waiting Dict.set Dict.get_or
waiting-set c n [] e = ground (arith, eq_iff n 1, e)
waiting-set c n ((k, m) ∷ d) e =
    ground (arith, eq_iff n 1, eq_iff m 0, eq_iff (n - 1) 0, e, waiting-set c n d)

length-push :
    (b : Bool) (c : Text) (xs : List Text)
    → length (if b then xs ++ c ∷ [] else xs) ≡ length xs + (if b then 1 else 0)
length-push true c xs = omega (arith, length-append xs (c ∷ []))
length-push false c xs = omega arith

-- Putting a child on the frontier takes it from those that wait.
visit_kids-total :
    (cs : List Text) (indeg : Dict Text ℕ) (frontier : List Text)
    → let (indeg', frontier') = visit_kids cs indeg frontier in
      length frontier' + waiting indeg' ≡ length frontier + waiting indeg
unfolding visit_kids
visit_kids-total [] indeg frontier = refl
visit_kids-total (c ∷ cs) indeg frontier =
    let n = Dict.get_or c 0 indeg in
    let pushed = if n == 1 then frontier ++ c ∷ [] else frontier in
    omega (
      arith,
      visit_kids-total cs (Dict.set c (n - 1) indeg) pushed,
      waiting-set c n indeg refl,
      length-push (n == 1) c frontier,
    )

visit_layer-total :
    (kids : Dict Text (List Text)) (layer : List Text) (indeg : Dict Text ℕ) (frontier : List Text)
    → let (indeg', frontier') = visit_layer kids layer indeg frontier in
      length frontier' + waiting indeg' ≡ length frontier + waiting indeg
unfolding visit_layer
visit_layer-total kids [] indeg frontier = refl
visit_layer-total kids (nid ∷ layer) indeg frontier =
    let (indeg', frontier') = visit_kids (Dict.get_or nid [] kids) indeg frontier in
    visit_layer-total kids layer indeg' frontier'
    ∙ visit_kids-total (Dict.get_or nid [] kids) indeg frontier

loop-ends :
    (n k : ℕ) (kids : Dict Text (List Text)) (indeg : Dict Text ℕ) (frontier : List Text)
    → length frontier + waiting indeg ≤ n
    → kahn_loop (n + k) kids indeg frontier ≡ kahn_loop n kids indeg frontier
unfolding kahn_loop
loop-ends zero zero kids indeg frontier h = refl
loop-ends zero (suc k) kids indeg [] h = let e : 0 + suc k ≡ suc k = omega arith in rw e refl
loop-ends zero (suc k) kids indeg (f ∷ frontier) h = absurd (omega arith)
loop-ends (suc n) k kids indeg [] h = let e : suc n + k ≡ suc (n + k) = omega arith in rw e refl
loop-ends (suc n) k kids indeg (f ∷ frontier) h =
    let e : suc n + k ≡ suc (n + k) = omega arith in
    let layer = sorted (f ∷ frontier) in
    let (indeg', frontier') = visit_layer kids layer indeg [] in
    let fewer = visit_layer-total kids layer indeg [] in
    rw e (ap (layer ∷◌) (loop-ends n k kids indeg' frontier' (omega arith)))

length-insert_sorted : (x : Text) (ys : List Text) → length (insert_sorted x ys) ≡ suc (length ys)
unfolding insert_sorted
length-insert_sorted x [] = refl
length-insert_sorted x (y ∷ ys) = ground (arith, length-insert_sorted x ys)

length-sorted : (xs : List Text) → length (sorted xs) ≡ length xs
unfolding sorted
length-sorted [] = refl
length-sorted (x ∷ xs) = length-insert_sorted x (sorted xs) ∙ ap suc (length-sorted xs)

roots-waiting : (d : Dict Text ℕ) → length (roots d) + waiting d ≡ length d
unfolding waiting
roots-waiting [] = refl
roots-waiting ((k, n) ∷ d) = ground (arith, roots-waiting d)

length-indegrees : (d : RequestDag) → length (indegrees d) ≡ length d
length-indegrees [] = refl
length-indegrees ((k, n) ∷ d) = ap suc (length-indegrees d)

-- The layering of a graph, cyclic or not, ends after at most as many rounds as the graph has nodes:
-- more rounds give the same layers.
pub kahn_loop-ends :
    (d : RequestDag) (k : ℕ)
    → kahn_loop (length d + k) (children d) (indegrees d) (sorted (roots (indegrees d)))
      ≡ kahn_loop (length d) (children d) (indegrees d) (sorted (roots (indegrees d)))
kahn_loop-ends d k =
    loop-ends (length d) k (children d) (indegrees d) (sorted (roots (indegrees d))) (
      omega (
        arith,
        length-sorted (roots (indegrees d)),
        roots-waiting (indegrees d),
        length-indegrees d,
      ))
