-- ===== src/Radix/Bound.antt =====
-- The block bound of `insert`.
use llm_inference.Base.{
  ℕ, zero, suc, ◌+◌, ◌≤◌, ◌≡◌, refl, ◌∙◌, List, [], ◌∷◌, arith, length, Option-cases, inl, inr,
  nat_eq, drop,
}
use llm_inference.Base.Text.{Text, text_eq}
use llm_inference.Base.Dict
use llm_inference.Radix.{
  RadixTree, root, common, track, hold, track_all, link, add_leaf, split_node, split_child,
  insert_from, insert, held_blocks,
}
use llm_inference.Radix.Eviction.{evict-fits}

cap-track_all : (bs : List Text) (n : ℕ) (t : RadixTree) → (track_all bs n t).cap ≡ t.cap
unfolding track_all track
cap-track_all [] n t = refl
cap-track_all (b ∷ bs) n t = cap-track_all bs n (track b n t)

cap-add_leaf :
    (b : Text) (node : ℕ) (hashes : List ℕ) (t : RadixTree) → (add_leaf b node hashes t).cap ≡ t.cap
unfolding add_leaf hold track link
cap-add_leaf b node [] t = refl
cap-add_leaf b node (h ∷ hashes) t = refl

cap-hold : (b : Text) (n : ℕ) (t : RadixTree) → (hold b n t).cap ≡ t.cap
unfolding hold track
cap-hold b n t = refl

cap-split_child :
    (b : Text) (node child h : ℕ) (hashes : List ℕ) (t : RadixTree)
    → (split_child b node child h hashes t).cap ≡ t.cap
unfolding split_child split_node
cap-split_child b node child h hashes t =
    let j = common (t.heap child).edge (h ∷ hashes) in
    let bs = Dict.keys (t.heap child).holders in
    let t' = split_node node child h j t in
    let tracked = track_all bs t.next t' in
    cap-add_leaf b t.next (drop j (h ∷ hashes)) (hold b t.next tracked)
    ∙ cap-hold b t.next tracked
    ∙ cap-track_all bs t.next t'

cap-insert_from :
    (fuel : ℕ) (b : Text) (node : ℕ) (hashes : List ℕ) (t : RadixTree)
    → (insert_from fuel b node hashes t).cap ≡ t.cap
unfolding insert_from
cap-insert_from zero b node hashes t = refl
cap-insert_from (suc fuel) b node [] t = refl
cap-insert_from (suc fuel) b node (h ∷ hashes) t =
    elim (Option-cases (Dict.get h (t.heap node).children)) [
      | inl missing ↦ rw (missing, insert_from) (cap-add_leaf b node (h ∷ hashes) t)
      | inr (child, found) ↦
          let j = common (t.heap child).edge (h ∷ hashes) in
          rw (found, insert_from)
            (ground (
              arith,
              cap-split_child b node child h hashes t,
              cap-insert_from fuel b child (drop j (h ∷ hashes)) (hold b child t),
              cap-hold b child t,
            ))
    ]

-- After an insertion of at least one block, whatever the tree, the nodes that the table of the
-- backend has amount to no more blocks than the capacity.
pub held_blocks-insert :
    (h : ℕ) (hashes : List ℕ) (b : Text) (t : RadixTree)
    → held_blocks b (insert (h ∷ hashes) b t) ≤ t.cap
unfolding insert
held_blocks-insert h hashes b t =
    let t' : RadixTree = record t { clock = t.clock + 1 } in
    let u = insert_from (length (h ∷ hashes)) b root (h ∷ hashes) t' in
    omega (arith, evict-fits b u, cap-insert_from (length (h ∷ hashes)) b root (h ∷ hashes) t')
