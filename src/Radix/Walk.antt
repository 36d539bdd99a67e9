-- ===== src/Radix/Walk.antt =====
-- `match` walks once for all backends; here each backend is followed alone.
use llm_inference.Base.{
  ◌≤◌, length-drop, sym, ◌∙◌, ℕ, zero, suc, ◌+◌, ◌≡◌, refl, Bool, true, false, ◌&&◌, Option, none,
  some, List, [], ◌∷◌, arith, ltb, eq_iff, if◌then◌else◌, nat_eq, contains, length, drop, filter,
  inl, inr, ap, Bool-cases, Option-cases,
}
use llm_inference.Base.Text.{Text, text_eq}
use llm_inference.Base.Dict
use llm_inference.Base.Dict.{Dict, get-set}
use llm_inference.Radix.{
  Node, RadixTree, root, common, survivors, set_all, is_empty, match_from, match,
}

-- How far one backend can be followed from a node: `none` if it does not hold the child at which the
-- hashes go on, else the blocks that agree along the children that it holds.
unfoldable pub reach : ℕ → (ℕ → Node) → ℕ → Text → List ℕ → Option ℕ
reach zero heap node b hashes = none
reach (suc fuel) heap node b [] = none
reach (suc fuel) heap node b (h ∷ hashes) = elim (Dict.get h (heap node).children) [
  | none ↦ none
  | some child ↦
      let j = common (heap child).edge (h ∷ hashes) in
      let below = reach fuel heap child b (drop j (h ∷ hashes)) in
      let on : ℕ = elim below [ none ↦ j | some d ↦ j + d ] in
      if Dict.has b (heap child).holders
      then some (if ltb j (length (heap child).edge) then j else on)
      else none
]

get-set_all :
    (b : Text) (alive : List Text) (depth : ℕ) (best : Dict Text ℕ)
    → Dict.get b (set_all alive depth best)
      ≡ (if contains b alive then some depth else Dict.get b best)
unfolding set_all contains
get-set_all b [] depth best = refl
get-set_all b (a ∷ alive) depth best =
    ground (arith, get-set_all b alive depth (Dict.set a depth best), get-set a b depth best)

contains-filter :
    (b : Text) (p : Text → Bool) (alive : List Text)
    → contains b (filter p alive) ≡ (contains b alive && p b)
unfolding contains
contains-filter b p [] = refl
contains-filter b p (a ∷ alive) = elim (Bool-cases (p a)) [
  | inl kept ↦ rw kept (
      unfold contains in
      ground (arith, eq_iff a b, contains-filter b p alive, λ (e : a ≡ b). ap p e))
  | inr cut ↦ rw cut (
      unfold contains in
      ground (arith, eq_iff a b, contains-filter b p alive, λ (e : a ≡ b). ap p e))
]

pub contains-keys : (b : Text) (d : Dict Text ℕ) → contains b (Dict.keys d) ≡ Dict.has b d
unfolding contains Dict.has
contains-keys b [] = refl
contains-keys b ((a, v) ∷ d) = ground (arith, contains-keys b d)

contains-is_empty : (b : Text) (xs : List Text) → is_empty xs ≡ true → contains b xs ≡ false
unfolding contains
contains-is_empty b [] h = refl
contains-is_empty b (x ∷ xs) h = ground arith

-- Whether a backend may still be extended.
abbrev is_alive : Text → Option (List Text) → Bool
is_alive b none = true
is_alive b (some alive) = contains b alive

abbrev extended : Option ℕ → ℕ → Option ℕ → Option ℕ
extended none depth old = old
extended (some d) depth old = some (depth + d)

contains-survivors :
    (b : Text) (alive : Option (List Text)) (d : Dict Text ℕ)
    → contains b (survivors alive (Dict.keys d)) ≡ (is_alive b alive && Dict.has b d)
unfolding survivors
contains-survivors b none d = contains-keys b d
contains-survivors b (some alive) d =
    ground
      (arith, contains-filter b (λ (a : Text). contains a (Dict.keys d)) alive, contains-keys b d)

get-match_from :
    (fuel : ℕ) (heap : ℕ → Node) (node : ℕ) (best : Dict Text ℕ) (alive : Option (List Text))
    (depth : ℕ) (hashes : List ℕ) (b : Text)
    → Dict.get b (match_from fuel heap node best alive depth hashes) ≡ (
        if is_alive b alive
        then extended (reach fuel heap node b hashes) depth (Dict.get b best)
        else Dict.get b best)
unfolding match_from reach
get-match_from zero heap node best alive depth hashes b = ground arith
get-match_from (suc fuel) heap node best alive depth [] b = ground arith
get-match_from (suc fuel) heap node best alive depth (h ∷ hashes) b =
    elim (Option-cases (Dict.get h (heap node).children)) [
      | inl missing ↦ rw (missing, match_from, reach) (ground arith)
      | inr (child, found) ↦
          let j = common (heap child).edge (h ∷ hashes) in
          let left = survivors alive (Dict.keys (heap child).holders) in
          let best' = set_all left (depth + j) best in
          rw (found, match_from, reach)
            (ground (
              arith,
              get-match_from fuel heap child best' (some left) (depth + j) (drop j (h ∷ hashes)) b,
              get-set_all b left (depth + j) best,
              contains-survivors b alive (heap child).holders,
              contains-is_empty b left,
            ))
    ]

-- One walk of `match` gives every backend its own longest prefix: the depth to which that backend
-- alone can be followed from the root along nodes that it holds, and no entry if it does not hold
-- the first one.
pub match-reach :
    (t : RadixTree) (hashes : List ℕ) (b : Text)
    → Dict.get b (match t hashes) ≡ reach (length hashes) t.heap root b hashes
unfolding match Dict.get
match-reach t hashes b =
    ground (arith, get-match_from (length hashes) t.heap root [] none 0 hashes b)

common-le : (e hashes : List ℕ) → common e hashes ≤ length hashes
unfolding common
common-le [] hashes = omega arith
common-le (x ∷ e) [] = omega arith
common-le (x ∷ e) (h ∷ hashes) = ground (arith, common-le e hashes)

reach-le :
    (fuel : ℕ) (heap : ℕ → Node) (node : ℕ) (b : Text) (hashes : List ℕ) (d : ℕ)
    → reach fuel heap node b hashes ≡ some d
    → d ≤ length hashes
unfolding reach
reach-le zero heap node b hashes d p = ground arith
reach-le (suc fuel) heap node b [] d p = ground arith
reach-le (suc fuel) heap node b (h ∷ hashes) d p =
    elim (Option-cases (Dict.get h (heap node).children)) [
      | inl missing ↦ ground arith
      | inr (child, found) ↦
          let j = common (heap child).edge (h ∷ hashes) in
          let left = drop j (h ∷ hashes) in
          elim (Option-cases (reach fuel heap child b left)) [
            | inl stop ↦ ground (arith, common-le (heap child).edge (h ∷ hashes))
            | inr (k, more) ↦ ground (
              arith,
              common-le (heap child).edge (h ∷ hashes),
              length-drop j (h ∷ hashes),
              reach-le fuel heap child b left k more,
            )
          ]
    ]

-- `match` never reports more blocks than were asked for.
pub match-le :
    (t : RadixTree) (hashes : List ℕ) (b : Text) (d : ℕ)
    → Dict.get b (match t hashes) ≡ some d
    → d ≤ length hashes
match-le t hashes b d p =
    reach-le (length hashes) t.heap root b hashes d (sym (match-reach t hashes b) ∙ p)
