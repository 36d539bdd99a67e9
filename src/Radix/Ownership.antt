-- ===== src/Radix/Ownership.antt =====
-- The holders on the nodes against the per-backend LRU tables.
pub mod Insertion
use llm_inference.Base.{
  ℕ, zero, suc, ◌+◌, ◌-◌, ◌≤◌, ◌<◌, ◌≡◌, ◌≢◌, refl, Bool, true, false, not, ◌&&◌, ◌||◌, Option,
  none, some, List, [], ◌∷◌, arith, ltb, ◌==◌, eq_iff, ◌∙◌, if◌then◌else◌, nat_eq, contains, length,
  drop, take, inl, inr, Option-cases, Bool-cases, get_or,
}
use llm_inference.Base.Text.{Text, text_eq}
use llm_inference.Base.Dict
use llm_inference.Base.Dict.{
  Dict, IsDict, has-get, has-set, has-remove, has-move_to_end, get_or-set, set-IsDict,
  move_to_end-IsDict, remove-IsDict, get_or-remove,
}
use llm_inference.Radix.{
  Node, RadixTree, root, new_node, update, init, common, track, hold, track_all, link, add_leaf,
  split_node, split_child, insert_from, drop_holder, evict_from, evict, insert, drop_holders,
  remove_backend, blocks,
}
use llm_inference.Radix.Walk.{contains-keys}

-- Whether the table of a backend has a node, and whether the node names the backend.
abbrev pub tracked : RadixTree → Text → ℕ → Bool
tracked t b n = Dict.has n (Dict.get_or b [] t.lru)

abbrev pub held : RadixTree → Text → ℕ → Bool
held t b n = Dict.has b (t.heap n).holders

pub record IsOwned (t : RadixTree) : Type 0 where
  pub agree : (b : Text) (n : ℕ) → held t b n ≡ tracked t b n
  pub fresh : (b : Text) (n : ℕ) → t.next ≤ n → held t b n ≡ false
  pub distinct : (b : Text) → IsDict (Dict.get_or b [] t.lru)

tracked-track :
    (b c : Text) (n m : ℕ) (t : RadixTree)
    → tracked (track b n t) c m ≡ ((b == c && n == m) || tracked t c m)
unfolding track
tracked-track b c n m t =
    let lru = Dict.get_or b [] t.lru in
    ground (
      arith,
      eq_iff b c,
      get_or-set b c (if Dict.has n lru then Dict.move_to_end n lru else Dict.set n tt lru) []
          t.lru,
      has-set n m tt lru,
      has-move_to_end n m lru,
      eq_iff n m,
    )

distinct-track :
    (b c : Text) (n : ℕ) (t : RadixTree)
    → IsDict (Dict.get_or b [] t.lru)
    → IsDict (Dict.get_or c [] t.lru)
    → IsDict (Dict.get_or c [] (track b n t).lru)
unfolding track
distinct-track b c n t hb hc =
    let lru = Dict.get_or b [] t.lru in
    ground (
      arith,
      eq_iff b c,
      get_or-set b c (if Dict.has n lru then Dict.move_to_end n lru else Dict.set n tt lru) []
          t.lru,
      set-IsDict n tt lru hb,
      move_to_end-IsDict n lru hb,
    )

heap-track : (b : Text) (n : ℕ) (t : RadixTree) → (track b n t).heap ≡ t.heap
unfolding track
heap-track b n t = refl

next-track : (b : Text) (n : ℕ) (t : RadixTree) → (track b n t).next ≡ t.next
unfolding track
next-track b n t = refl

track-distinct :
    (b : Text) (n : ℕ) (t : RadixTree)
    → ((c : Text) → IsDict (Dict.get_or c [] t.lru))
    → (c : Text) → IsDict (Dict.get_or c [] (track b n t).lru)
track-distinct b n t h c = distinct-track b c n t (h b) (h c)

held-hold :
    (b c : Text) (n m : ℕ) (t : RadixTree)
    → held (hold b n t) c m ≡ ((b == c && n == m) || held t c m)
unfolding hold track
held-hold b c n m t = ground (arith, eq_iff b c, eq_iff n m, has-set b c t.clock (t.heap n).holders)

tracked-hold :
    (b c : Text) (n m : ℕ) (t : RadixTree)
    → tracked (hold b n t) c m ≡ ((b == c && n == m) || tracked t c m)
unfolding hold
tracked-hold b c n m t = tracked-track b c n m _

next-hold : (b : Text) (n : ℕ) (t : RadixTree) → (hold b n t).next ≡ t.next
unfolding hold track
next-hold b n t = refl

hold-distinct :
    (b : Text) (n : ℕ) (t : RadixTree)
    → ((c : Text) → IsDict (Dict.get_or c [] t.lru))
    → (c : Text) → IsDict (Dict.get_or c [] (hold b n t).lru)
unfolding hold
hold-distinct b n t h = track-distinct b n _ h

pub hold-IsOwned :
    (b : Text) (n : ℕ) (t : RadixTree) → n < t.next → IsOwned t → IsOwned (hold b n t)
hold-IsOwned b n t old h = record {
  agree = λ c m. ground (arith, held-hold b c n m t, tracked-hold b c n m t, h.agree c m);
  fresh = λ c m new. ground (arith, held-hold b c n m t, next-hold b n t, h.fresh c m, eq_iff n m);
  distinct = hold-distinct b n t h.distinct;
}

held-link :
    (node : ℕ) (h : ℕ) (hashes : List ℕ) (t : RadixTree) (c : Text) (m : ℕ)
    → held (link node (h ∷ hashes) t) c m ≡ (if t.next == m then false else held t c m)
unfolding link Dict.has
held-link node h hashes t c m = ground (arith, eq_iff t.next m, eq_iff node m)

link-IsOwned :
    (node : ℕ) (h : ℕ) (hashes : List ℕ) (t : RadixTree)
    → IsOwned t
    → IsOwned (link node (h ∷ hashes) t)
unfolding link
link-IsOwned node h hashes t o = record {
  agree = λ c m.
      ground (arith, held-link node h hashes t c m, eq_iff t.next m, o.agree c m, o.fresh c m);
  fresh = λ c m new. ground (arith, held-link node h hashes t c m, o.fresh c m, eq_iff t.next m);
  distinct = o.distinct;
}

pub add_leaf-IsOwned :
    (b : Text) (node : ℕ) (hashes : List ℕ) (t : RadixTree)
    → IsOwned t
    → IsOwned (add_leaf b node hashes t)
unfolding add_leaf link
add_leaf-IsOwned b node [] t o = o
add_leaf-IsOwned b node (h ∷ hashes) t o =
    hold-IsOwned b t.next (link node (h ∷ hashes) t) (omega arith) (link-IsOwned node h hashes t o)

pub tracked-track_all :
    (bs : List Text) (n : ℕ) (t : RadixTree) (c : Text) (m : ℕ)
    → tracked (track_all bs n t) c m ≡ ((contains c bs && n == m) || tracked t c m)
unfolding track_all contains
tracked-track_all [] n t c m = refl
tracked-track_all (b ∷ bs) n t c m =
    ground (arith, tracked-track_all bs n (track b n t) c m, tracked-track b c n m t)

pub heap-track_all :
    (bs : List Text) (n : ℕ) (t : RadixTree)
    → ((track_all bs n t).heap ≡ t.heap) × ((track_all bs n t).next ≡ t.next)
unfolding track_all
heap-track_all [] n t = (refl, refl)
heap-track_all (b ∷ bs) n t =
    let ih = heap-track_all bs n (track b n t) in (ih.0 ∙ heap-track b n t, ih.1 ∙ next-track b n t)

pub track_all-distinct :
    (bs : List Text) (n : ℕ) (t : RadixTree)
    → ((c : Text) → IsDict (Dict.get_or c [] t.lru))
    → (c : Text) → IsDict (Dict.get_or c [] (track_all bs n t).lru)
unfolding track_all
track_all-distinct [] n t h = h
track_all-distinct (b ∷ bs) n t h = track_all-distinct bs n (track b n t) (track-distinct b n t h)
