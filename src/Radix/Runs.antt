-- ===== src/Radix/Runs.antt =====
-- Any sequence of insertions and removals from an empty tree.
use llm_inference.Base.{
  ℕ, zero, suc, ◌+◌, ◌≤◌, ◌<◌, ◌≡◌, refl, none, List, [], ◌∷◌, arith, length, Option-cases, inl,
  inr, nat_eq, drop,
}
use llm_inference.Base.Text.{Text, text_eq}
use llm_inference.Base.Dict
use llm_inference.Radix.{
  RadixTree, root, init, common, track, hold, track_all, link, add_leaf, split_node, split_child,
  insert_from, insert, remove_backend, match, match_from,
}
use llm_inference.Radix.Shape.{
  IsShaped, SameShape-IsShaped, child_of, hold-SameShape, track_all-SameShape,
}
use llm_inference.Radix.Shape.Insertion.{insert_from-IsShaped, match_from_fuel}
use llm_inference.Radix.Ownership.{IsOwned, held, tracked}
use llm_inference.Radix.Ownership.Insertion.{insert_from-IsOwned}
use llm_inference.Radix.Eviction.{evict-IsOwned, evict-SameShape}
use llm_inference.Radix.Removal.{remove_backend-IsOwned, remove_backend-SameShape}

pub record IsValid (t : RadixTree) : Type 0 where
  pub rooted : 0 < t.next
  pub shaped : IsShaped t
  pub owned : IsOwned t

pub init-IsValid : (cap : ℕ) → IsValid (init cap)
unfolding init Dict.get Dict.get_or Dict.has
init-IsValid cap = record {
  rooted = omega arith;
  shaped = record {
    linked = λ n h c e. ground arith;
    keyed = λ n h c e. ground arith;
    unique = λ n m h k c e f. ground arith;
    placed = λ n h c e. ground arith;
  };
  owned = record { agree = λ b n. refl; fresh = λ b n new. refl; distinct = λ b. tt };
}

next-add_leaf :
    (b : Text) (node : ℕ) (hashes : List ℕ) (t : RadixTree)
    → t.next ≤ (add_leaf b node hashes t).next
unfolding add_leaf hold track link
next-add_leaf b node [] t = omega arith
next-add_leaf b node (h ∷ hashes) t = omega arith

next-split_child :
    (b : Text) (node child h : ℕ) (hashes : List ℕ) (t : RadixTree)
    → t.next ≤ (split_child b node child h hashes t).next
unfolding split_child split_node
next-split_child b node child h hashes t =
    let j = common (t.heap child).edge (h ∷ hashes) in
    let bs = Dict.keys (t.heap child).holders in
    let t' = split_node node child h j t in
    let tracked = track_all bs t.next t' in
    omega (
      arith,
      (track_all-SameShape bs t.next t').next,
      (hold-SameShape b t.next tracked).next,
      next-add_leaf b t.next (drop j (h ∷ hashes)) (hold b t.next tracked),
    )

next-insert_from :
    (fuel : ℕ) (b : Text) (node : ℕ) (hashes : List ℕ) (t : RadixTree)
    → t.next ≤ (insert_from fuel b node hashes t).next
unfolding insert_from
next-insert_from zero b node hashes t = omega arith
next-insert_from (suc fuel) b node [] t = omega arith
next-insert_from (suc fuel) b node (h ∷ hashes) t = elim (Option-cases (child_of t node h)) [
  | inl missing ↦ rw (missing, insert_from) (next-add_leaf b node (h ∷ hashes) t)
  | inr (child, found) ↦
      let j = common (t.heap child).edge (h ∷ hashes) in
      rw (found, insert_from)
        (ground (
          arith,
          next-split_child b node child h hashes t,
          (hold-SameShape b child t).next,
          next-insert_from fuel b child (drop j (h ∷ hashes)) (hold b child t),
        ))
]

-- Insertion keeps a valid tree valid.
pub insert-IsValid :
    (hashes : List ℕ) (b : Text) (t : RadixTree) → IsValid t → IsValid (insert hashes b t)
unfolding insert
insert-IsValid [] b t v = v
insert-IsValid (h ∷ hashes) b t v =
    let t' : RadixTree = record t { clock = t.clock + 1 } in
    let shaped' : IsShaped t' = record {
      linked = v.shaped.linked;
      keyed = v.shaped.keyed;
      unique = v.shaped.unique;
      placed = v.shaped.placed;
    } in
    let owned' : IsOwned t' = record {
      agree = v.owned.agree;
      fresh = v.owned.fresh;
      distinct = v.owned.distinct;
    } in
    let u = insert_from (length (h ∷ hashes)) b root (h ∷ hashes) t' in
    let same = evict-SameShape b u in
    record {
      rooted = omega (
        arith,
        same.next,
        v.rooted,
        next-insert_from (length (h ∷ hashes)) b root (h ∷ hashes) t',
      );
      shaped =
          SameShape-IsShaped same
            (insert_from-IsShaped (length (h ∷ hashes)) b root (h ∷ hashes) t' v.rooted shaped');
      owned =
          evict-IsOwned b u
            (insert_from-IsOwned (length (h ∷ hashes)) b root (h ∷ hashes) t' shaped' owned');
    }

pub remove_backend-IsValid : (b : Text) (t : RadixTree) → IsValid t → IsValid (remove_backend b t)
remove_backend-IsValid b t v =
    let same = remove_backend-SameShape b t in
    record {
      rooted = omega (arith, same.next, v.rooted);
      shaped = SameShape-IsShaped same v.shaped;
      owned = remove_backend-IsOwned b t v.owned;
    }

pub data Change : Type 0 where
  put : List ℕ → Text → Change
  gone : Text → Change

unfoldable pub apply : RadixTree → Change → RadixTree
apply t (put hashes b) = insert hashes b t
apply t (gone b) = remove_backend b t

unfoldable pub run : RadixTree → List Change → RadixTree
run t [] = t
run t (c ∷ cs) = run (apply t c) cs

pub run-IsValid : (cs : List Change) (t : RadixTree) → IsValid t → IsValid (run t cs)
unfolding run apply
run-IsValid [] t v = v
run-IsValid (put hashes b ∷ cs) t v =
    run-IsValid cs (insert hashes b t) (insert-IsValid hashes b t v)
run-IsValid (gone b ∷ cs) t v = run-IsValid cs (remove_backend b t) (remove_backend-IsValid b t v)

-- After any sequence of insertions and removals on a new tree, a node names a backend among its
-- holders exactly if the LRU table of that backend has the node.
pub holders-tables :
    (cap : ℕ) (cs : List Change) (b : Text) (n : ℕ)
    → held (run (init cap) cs) b n ≡ tracked (run (init cap) cs) b n
holders-tables cap cs b n = (run-IsValid cs (init cap) (init-IsValid cap)).owned.agree b n

-- After any sequence of insertions and removals on a new tree, the loop of `match` ends by itself:
-- with any fuel from one unit for each block on, the answer is the same.
pub match-ends :
    (cap fuel : ℕ) (cs : List Change) (hashes : List ℕ)
    → length hashes ≤ fuel
    → match_from fuel (run (init cap) cs).heap root [] none 0 hashes
      ≡ match (run (init cap) cs) hashes
unfolding match
match-ends cap fuel cs hashes enough =
    match_from_fuel fuel (length hashes) (run (init cap) cs) root [] none 0 hashes
      (run-IsValid cs (init cap) (init-IsValid cap)).shaped enough (omega arith)
