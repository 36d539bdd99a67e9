-- ===== src/Radix/Shape/SplitNode.antt =====
-- Splitting a node of the radix tree keeps its shape.
use llm_inference.Base.{
  ℕ, zero, suc, ◌+◌, ◌<◌, ◌≡◌, refl, none, some, List, [], ◌∷◌, arith, ◌==◌, eq_iff, if◌then◌else◌,
  nat_eq, length, drop, take, get_or, get_elem?,
}
use llm_inference.Base.Text.{text_eq}
use llm_inference.Base.Dict
use llm_inference.Base.Dict.{Dict, get-set}
use llm_inference.Radix.{RadixTree, split_node}
use llm_inference.Radix.Shape.{child_of, edge_of, IsShaped}

child_of-split_node :
    (node child h j : ℕ) (t : RadixTree) (n k : ℕ)
    → node < t.next
    → child < t.next
    → child_of (split_node node child h j t) n k ≡ (
        if node == n
        then (if h == k then some t.next else child_of t n k)
        else if t.next == n
        then (if get_or (drop j (edge_of t child)) 0 0 == k then some child else none)
        else child_of t n k)
unfolding split_node Dict.get
child_of-split_node node child h j t n k inside below = ground (
  arith,
  eq_iff node n,
  eq_iff t.next n,
  eq_iff t.next node,
  eq_iff child node,
  eq_iff child n,
  eq_iff h k,
  get-set h k t.next (t.heap node).children,
)

edge_of-split_node :
    (node child h j : ℕ) (t : RadixTree) (n : ℕ)
    → child < t.next
    → edge_of (split_node node child h j t) n ≡ (
        if t.next == n
        then take j (edge_of t child)
        else if child == n
        then drop j (edge_of t child)
        else edge_of t n)
unfolding split_node
edge_of-split_node node child h j t n below =
    ground (arith, eq_iff node n, eq_iff t.next n, eq_iff child n)

head-drop :
    (j : ℕ) (e : List ℕ) → j < length e → get_elem? (drop j e) 0 ≡ some (get_or (drop j e) 0 0)
head-drop zero [] h = ground arith
head-drop zero (x ∷ e) h = refl
head-drop (suc j) [] h = ground arith
head-drop (suc j) (x ∷ e) h = head-drop j e (omega arith)

head-take : (j : ℕ) (e : List ℕ) → 0 < j → get_elem? (take j e) 0 ≡ get_elem? e 0
head-take zero e h = absurd (omega arith)
head-take (suc j) [] h = refl
head-take (suc j) (x ∷ e) h = refl

next-split_node :
    (node child h j : ℕ) (t : RadixTree) → (split_node node child h j t).next ≡ t.next + 1
unfolding split_node
next-split_node node child h j t = refl

-- Splitting an edge inside keeps the shape.
pub split_node-IsShaped :
    (node child h j : ℕ) (t : RadixTree)
    → child_of t node h ≡ some child
    → 0 < j
    → j < length (edge_of t child)
    → IsShaped t
    → IsShaped (split_node node child h j t)
split_node-IsShaped node child h j t found some_blocks inside o =
    let parent = o.placed node h child found in
    let below = o.linked node h child found in
    let size = next-split_node node child h j t in
    record {
      linked = λ n k c e.
          ground
            (arith, size, child_of-split_node node child h j t n k parent below, o.linked n k c);
      keyed = λ n k c e. ground (
        arith,
        child_of-split_node node child h j t n k parent below,
        edge_of-split_node node child h j t c below,
        o.linked n k c,
        o.keyed n k c,
        o.keyed node h child,
        o.unique n node k h child,
        head-drop j (edge_of t child),
        head-take j (edge_of t child),
        eq_iff node n,
        eq_iff h k,
        eq_iff (get_or (drop j (edge_of t child)) 0 0) k,
        eq_iff t.next c,
        eq_iff child c,
      );
      unique = λ n m k l c e f. ground (
        arith,
        child_of-split_node node child h j t n k parent below,
        child_of-split_node node child h j t m l parent below,
        o.linked n k c,
        o.linked m l c,
        o.unique n m k l c,
        o.unique n node k h child,
        o.unique m node l h child,
        eq_iff node n,
        eq_iff node m,
        eq_iff t.next n,
        eq_iff t.next m,
        eq_iff h k,
        eq_iff h l,
        eq_iff (get_or (drop j (edge_of t child)) 0 0) k,
        eq_iff (get_or (drop j (edge_of t child)) 0 0) l,
      );
      placed = λ n k c e. ground (
        arith,
        size,
        child_of-split_node node child h j t n k parent below,
        o.placed n k c,
        eq_iff node n,
        eq_iff t.next n,
      );
    }
