-- ===== src/Radix/Shape.antt =====
-- The shape of the tree: each child is reached by the first block of its edge and from one place
-- only. So every round of the loops consumes a block, and the fuel is enough.
pub mod SplitNode
pub mod Insertion
use llm_inference.Base.{
  ℕ, zero, suc, ◌+◌, ◌-◌, ◌≤◌, ◌<◌, ◌≡◌, refl, Bool, true, false, Option, none, some, List, [], ◌∷◌,
  arith, ltb, ◌==◌, eq_iff, if◌then◌else◌, nat_eq, length, drop, take, inl, inr, Option-cases,
  Bool-cases, get_or, get_elem?,
}
use llm_inference.Base.Text.{Text, text_eq}
use llm_inference.Base.Dict
use llm_inference.Base.Dict.{Dict, get-set}
use llm_inference.Radix.{
  Node, RadixTree, root, new_node, update, init, common, track, hold, track_all, link, add_leaf,
  split_node, split_child, insert_from,
}

abbrev pub child_of : RadixTree → ℕ → ℕ → Option ℕ
child_of t n h = Dict.get h (t.heap n).children

abbrev pub edge_of : RadixTree → ℕ → List ℕ
edge_of t n = (t.heap n).edge

pub record IsShaped (t : RadixTree) : Type 0 where
  pub linked : (n h c : ℕ) → child_of t n h ≡ some c → c < t.next
  pub keyed : (n h c : ℕ) → child_of t n h ≡ some c → get_elem? (edge_of t c) 0 ≡ some h
  pub unique :
      (n m h k c : ℕ) → child_of t n h ≡ some c → child_of t m k ≡ some c → (n ≡ m) × (h ≡ k)
  pub placed : (n h c : ℕ) → child_of t n h ≡ some c → n < t.next

-- Nothing of the shape depends on the holders and the tables.
pub record SameShape (t u : RadixTree) : Type 0 where
  pub next : u.next ≡ t.next
  pub edges : (n : ℕ) → edge_of u n ≡ edge_of t n
  pub children : (n h : ℕ) → child_of u n h ≡ child_of t n h

pub SameShape-IsShaped : {t u : RadixTree} → SameShape t u → IsShaped t → IsShaped u
SameShape-IsShaped {t} {u} s o = record {
  linked = λ n h c e. ground (arith, s.next, s.children n h, o.linked n h c);
  keyed = λ n h c e. ground (arith, s.edges c, s.children n h, o.keyed n h c);
  unique = λ n m h k c e f. ground (arith, s.children n h, s.children m k, o.unique n m h k c);
  placed = λ n h c e. ground (arith, s.next, s.children n h, o.placed n h c);
}

pub hold-SameShape : (b : Text) (n : ℕ) (t : RadixTree) → SameShape t (hold b n t)
unfolding hold track
hold-SameShape b n t = record {
  next = refl;
  edges = λ m. ground (arith, eq_iff n m);
  children = λ m h. ground (arith, eq_iff n m);
}

pub track_all-SameShape : (bs : List Text) (n : ℕ) (t : RadixTree) → SameShape t (track_all bs n t)
unfolding track_all track
track_all-SameShape [] n t = record { next = refl; edges = λ m. refl; children = λ m h. refl }
track_all-SameShape (b ∷ bs) n t =
    let ih = track_all-SameShape bs n (track b n t) in
    record { next = ih.next; edges = ih.edges; children = ih.children }

-- A common prefix of an edge with hashes that begin with its key is not empty.
pub common_pos :
    (e : List ℕ) (h : ℕ) (hashes : List ℕ) → get_elem? e 0 ≡ some h → 0 < common e (h ∷ hashes)
unfolding common
common_pos [] h hashes p = ground arith
common_pos (x ∷ e) h hashes p = ground (arith, eq_iff x h)

pub child_of-link :
    (node h : ℕ) (hashes : List ℕ) (t : RadixTree) (n k : ℕ)
    → node < t.next
    → child_of (link node (h ∷ hashes) t) n k ≡ (
        if node == n
        then (if h == k then some t.next else child_of t n k)
        else if t.next == n
        then none
        else child_of t n k)
unfolding link Dict.get
child_of-link node h hashes t n k inside = ground (
  arith,
  eq_iff node n,
  eq_iff t.next n,
  eq_iff t.next node,
  eq_iff h k,
  get-set h k t.next (t.heap node).children,
)

pub edge_of-link :
    (node h : ℕ) (hashes : List ℕ) (t : RadixTree) (n : ℕ)
    → edge_of (link node (h ∷ hashes) t) n ≡ (if t.next == n then h ∷ hashes else edge_of t n)
unfolding link
edge_of-link node h hashes t n = ground (arith, eq_iff node n, eq_iff t.next n)

pub next-link :
    (node h : ℕ) (hashes : List ℕ) (t : RadixTree) → (link node (h ∷ hashes) t).next ≡ t.next + 1
unfolding link
next-link node h hashes t = refl

pub link-IsShaped :
    (node : ℕ) (h : ℕ) (hashes : List ℕ) (t : RadixTree)
    → node < t.next
    → IsShaped t
    → IsShaped (link node (h ∷ hashes) t)
link-IsShaped node h hashes t inside o =
    let size = next-link node h hashes t in
    record {
      linked = λ n k c e.
          ground
            (arith, size, child_of-link node h hashes t n k inside, o.linked n k c, eq_iff node n);
      keyed = λ n k c e. ground (
        arith,
        child_of-link node h hashes t n k inside,
        edge_of-link node h hashes t c,
        o.linked n k c,
        o.keyed n k c,
        eq_iff h k,
        eq_iff t.next c,
      );
      unique = λ n m k l c e f. ground (
        arith,
        child_of-link node h hashes t n k inside,
        child_of-link node h hashes t m l inside,
        o.linked n k c,
        o.linked m l c,
        o.unique n m k l c,
        eq_iff node n,
        eq_iff node m,
        eq_iff h k,
        eq_iff h l,
      );
      placed = λ n k c e.
          ground
            (arith, size, child_of-link node h hashes t n k inside, o.placed n k c, eq_iff node n);
    }
