-- ===== src/Radix/Ownership/Insertion.antt =====
-- gateway/radix_tree.py: insertion, the holders and the LRU tables.
use llm_inference.Base.{
  ℕ, zero, suc, ◌+◌, ◌≡◌, refl, List, [], ◌∷◌, arith, ◌==◌, eq_iff, if◌then◌else◌, nat_eq, length,
  drop, inl, inr, Option-cases, Bool-cases,
}
use llm_inference.Base.Text.{Text, text_eq}
use llm_inference.Base.Dict
use llm_inference.Base.Dict.{
  Dict, IsDict, has-get, has-set, has-remove, has-move_to_end, get_or-set, set-IsDict,
  move_to_end-IsDict, remove-IsDict, get_or-remove,
}
use llm_inference.Radix.{RadixTree, common, hold, track_all, split_node, split_child, insert_from}
use llm_inference.Radix.Walk.{contains-keys}
use llm_inference.Radix.Shape.{IsShaped, SameShape-IsShaped, hold-SameShape}
use llm_inference.Radix.Ownership.{
  held, IsOwned, heap-track_all, tracked-track_all, track_all-distinct, hold-IsOwned,
  add_leaf-IsOwned,
}

held-split_node :
    (node child h j : ℕ) (t : RadixTree) (c : Text) (m : ℕ)
    → held (split_node node child h j t) c m ≡ (if t.next == m then held t c child else held t c m)
unfolding split_node
held-split_node node child h j t c m =
    ground (arith, eq_iff t.next m, eq_iff node m, eq_iff child m)

split_node-fields :
    (node child h j : ℕ) (t : RadixTree)
    → ((split_node node child h j t).lru ≡ t.lru)
      × ((split_node node child h j t).next ≡ t.next + 1)
unfolding split_node
split_node-fields node child h j t = (refl, refl)

-- Splitting a node and tracking the front for all its holders.
split-IsOwned :
    (node child h j : ℕ) (t : RadixTree)
    → IsOwned t
    → IsOwned (track_all (Dict.keys (t.heap child).holders) t.next (split_node node child h j t))
split-IsOwned node child h j t o =
    let bs = Dict.keys (t.heap child).holders in
    let t' = split_node node child h j t in
    let same = heap-track_all bs t.next t' in
    let fields = split_node-fields node child h j t in
    record {
      agree = λ c m. ground (
        arith,
        same.0,
        fields.0,
        held-split_node node child h j t c m,
        tracked-track_all bs t.next t' c m,
        contains-keys c (t.heap child).holders,
        o.agree c m,
        o.fresh c m,
        eq_iff t.next m,
      );
      fresh = λ c m new. ground (
        arith,
        same.0,
        same.1,
        fields.1,
        held-split_node node child h j t c m,
        o.fresh c m,
        eq_iff t.next m,
      );
      distinct = track_all-distinct bs t.next t' (unfold split_node in o.distinct);
    }

pub split_child-IsOwned :
    (b : Text) (node child h : ℕ) (hashes : List ℕ) (t : RadixTree)
    → IsOwned t
    → IsOwned (split_child b node child h hashes t)
unfolding split_child
split_child-IsOwned b node child h hashes t o =
    let j = common (t.heap child).edge (h ∷ hashes) in
    let bs = Dict.keys (t.heap child).holders in
    let t' = split_node node child h j t in
    let same = heap-track_all bs t.next t' in
    let fields = split_node-fields node child h j t in
    add_leaf-IsOwned b t.next (drop j (h ∷ hashes)) (hold b t.next (track_all bs t.next t')) (
      hold-IsOwned b t.next (track_all bs t.next t') (omega (arith, same.1, fields.1))
        (split-IsOwned node child h j t o))

pub insert_from-IsOwned :
    (fuel : ℕ) (b : Text) (node : ℕ) (hashes : List ℕ) (t : RadixTree)
    → IsShaped t
    → IsOwned t
    → IsOwned (insert_from fuel b node hashes t)
unfolding insert_from
insert_from-IsOwned zero b node hashes t l o = o
insert_from-IsOwned (suc fuel) b node [] t l o = o
insert_from-IsOwned (suc fuel) b node (h ∷ hashes) t l o =
    elim (Option-cases (Dict.get h (t.heap node).children)) [
      | inl missing ↦ rw (missing, insert_from) (add_leaf-IsOwned b node (h ∷ hashes) t o)
      | inr (child, found) ↦
          let j = common (t.heap child).edge (h ∷ hashes) in
          elim (Bool-cases (j == length (t.heap child).edge)) [
            | inl whole ↦
                rw (found, insert_from)
                  (rw whole (
                    insert_from-IsOwned fuel b child (drop j (h ∷ hashes)) (hold b child t)
                      (SameShape-IsShaped (hold-SameShape b child t) l)
                      (hold-IsOwned b child t (l.linked node h child found) o)))
            | inr part ↦
                rw (found, insert_from) (rw part (split_child-IsOwned b node child h hashes t o))
          ]
    ]
