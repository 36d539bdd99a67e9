-- ===== src/Radix/Removal.antt =====
-- gateway/radix_tree.py: the answers of `match` after `remove_backend`.
use llm_inference.Base.{
  ℕ, zero, suc, ◌≡◌, refl, ◌∙◌, sym, ap, false, not, ◌&&◌, none, List, [], ◌∷◌, arith, ◌==◌, eq_iff,
  if◌then◌else◌, nat_eq, length, drop, Bool-cases, Option-cases, inl, inr,
}
use llm_inference.Base.Text.{Text, text_eq}
use llm_inference.Base.Dict
use llm_inference.Base.Dict.{Dict, IsDict, has-get, get_or-remove}
use llm_inference.Radix.{
  Node, RadixTree, root, common, drop_holder, drop_holders, remove_backend, match,
}
use llm_inference.Radix.Walk.{reach, match-reach}
use llm_inference.Radix.Shape.{SameShape}
use llm_inference.Radix.Ownership.{held, tracked, IsOwned}
use llm_inference.Radix.Eviction.{
  SameNodes, SameNodes-trans, drop_holder-SameNodes, has-drop_holder, SameNodes-SameShape,
}

drop_holders-SameNodes :
    (b : Text) (l : Dict ℕ (Unit {0})) (heap : ℕ → Node) → SameNodes heap (drop_holders b l heap)
unfolding drop_holders
drop_holders-SameNodes b [] heap = record { edge = λ n. refl; children = λ n. refl }
drop_holders-SameNodes b ((n, u) ∷ l) heap =
    SameNodes-trans (drop_holder-SameNodes b n heap)
      (drop_holders-SameNodes b l (drop_holder b n heap))

has-drop_holders :
    (b c : Text) (l : Dict ℕ (Unit {0})) (heap : ℕ → Node) (m : ℕ)
    → Dict.has c (drop_holders b l heap m).holders
      ≡ (not (b == c && Dict.has m l) && Dict.has c (heap m).holders)
unfolding drop_holders Dict.has
has-drop_holders b c [] heap m = ground arith
has-drop_holders b c ((n, u) ∷ l) heap m =
    ground (arith, has-drop_holders b c l (drop_holder b n heap) m, has-drop_holder b c n m heap)

has_nil : (m : ℕ) → Dict.has {V = Unit {0}} m [] ≡ false
unfolding Dict.has
has_nil m = refl

pub remove_backend-IsOwned : (b : Text) (t : RadixTree) → IsOwned t → IsOwned (remove_backend b t)
unfolding remove_backend
remove_backend-IsOwned b t o =
    let l = Dict.get_or b [] t.lru in
    record {
      agree = λ c m. ground (
        arith,
        eq_iff b c,
        get_or-remove b c [] t.lru,
        has-drop_holders b c l t.heap m,
        o.agree c m,
        has_nil m,
      );
      fresh = λ c m new. ground (arith, has-drop_holders b c l t.heap m, o.fresh c m);
      distinct = λ c. ground (arith, get_or-remove b c [] t.lru, o.distinct c);
    }

has-remove_backend :
    (b c : Text) (m : ℕ) (t : RadixTree)
    → held (remove_backend b t) c m ≡ (not (b == c && tracked t b m) && held t c m)
unfolding remove_backend
has-remove_backend b c m t = has-drop_holders b c (Dict.get_or b [] t.lru) t.heap m

remove_backend-SameNodes : (b : Text) (t : RadixTree) → SameNodes t.heap (remove_backend b t).heap
unfolding remove_backend
remove_backend-SameNodes b t = drop_holders-SameNodes b (Dict.get_or b [] t.lru) t.heap

pub remove_backend-SameShape : (b : Text) (t : RadixTree) → SameShape t (remove_backend b t)
unfolding remove_backend
remove_backend-SameShape b t =
    SameNodes-SameShape t (remove_backend b t) refl
      (drop_holders-SameNodes b (Dict.get_or b [] t.lru) t.heap)

-- What a backend can reach depends on the nodes and on where that backend stands among the holders.
reach-same :
    (fuel : ℕ) (f g : ℕ → Node) (b : Text) (node : ℕ) (hashes : List ℕ)
    → SameNodes f g
    → ((n : ℕ) → Dict.has b (g n).holders ≡ Dict.has b (f n).holders)
    → reach fuel g node b hashes ≡ reach fuel f node b hashes
unfolding reach
reach-same zero f g b node hashes s h = refl
reach-same (suc fuel) f g b node [] s h = refl
reach-same (suc fuel) f g b node (k ∷ hashes) s h =
    elim (Option-cases (Dict.get k (f node).children)) [
      | inl missing ↦
          let missing' = ap (Dict.get k) (s.children node) ∙ missing in
          rw (missing', missing, reach)
      | inr (child, found) ↦
          let found' = ap (Dict.get k) (s.children node) ∙ found in
          rw (found', found, reach)
            (ground (
              arith,
              s.edge child,
              h child,
              ap (λ (e : List ℕ). common e (k ∷ hashes)) (s.edge child),
              ap (λ (e : List ℕ). reach fuel g child b (drop (common e (k ∷ hashes)) (k ∷ hashes)))
                  (s.edge child),
              reach-same fuel f g b child (drop (common (f child).edge (k ∷ hashes)) (k ∷ hashes)) s
                  h,
            ))
    ]

reach-unheld :
    (fuel : ℕ) (f : ℕ → Node) (b : Text) (node : ℕ) (hashes : List ℕ)
    → ((n : ℕ) → Dict.has b (f n).holders ≡ false)
    → reach fuel f node b hashes ≡ none
unfolding reach
reach-unheld zero f b node hashes h = refl
reach-unheld (suc fuel) f b node [] h = refl
reach-unheld (suc fuel) f b node (k ∷ hashes) h =
    elim (Option-cases (Dict.get k (f node).children)) [
      | inl missing ↦ rw (missing, reach)
      | inr (child, found) ↦ rw (found, reach) (ground (arith, h child))
    ]

-- On a tree whose holders and tables agree, after `remove_backend` the backend is in no answer of
-- `match`, and the answers for every other backend are what they were.
pub match-remove_backend :
    (b c : Text) (t : RadixTree) (hashes : List ℕ)
    → IsOwned t
    → Dict.get c (match (remove_backend b t) hashes)
      ≡ (if b == c then none else Dict.get c (match t hashes))
match-remove_backend b c t hashes o = elim (Bool-cases (b == c)) [
  | inl same ↦ rw same (
      match-reach (remove_backend b t) hashes c
      ∙ reach-unheld (length hashes) (remove_backend b t).heap c root hashes
          (λ n. ground (arith, eq_iff b c, has-remove_backend b c n t, o.agree c n)))
  | inr other ↦ rw other (
      match-reach (remove_backend b t) hashes c
      ∙ reach-same (length hashes) t.heap (remove_backend b t).heap c root hashes
          (remove_backend-SameNodes b t) (λ n. ground (arith, has-remove_backend b c n t))
      ∙ sym (match-reach t hashes c))
]
