-- ===== src/Router/Totality.antt =====
-- gateway/router.py: the result for any pool, and for one that is saturated.
use native.Mathlib.Nat.{mod-lt}
use llm_inference.Base.{
  ℕ, zero, suc, ◌≤◌, ◌<◌, ◌≡◌, ◌≢◌, refl, true, Option, none, some, List, [], ◌∷◌, ◌==◌, eq_iff,
  length, get_elem?, filter, leb, ltb, All, arith, inl, inr, Bool-cases, nat_eq,
}
use llm_inference.Base.Text.{Text, text_eq}
use llm_inference.Base.Dict
use llm_inference.Base.Dict.{Dict}
use llm_inference.Radix
use llm_inference.Router.{
  Strategy, round_robin, consistent_hash, prefix_tree, Router, inflight, is_saturated, Scored,
  scored_of, fallback_of, least, good_of, tied_of, pick, or_first, first_or_zero, choose_among,
  choose_by,
}

get_elem?-some {ℓ} :
    {A : Type ℓ} (xs : List A) (i : ℕ) → i < length xs → (x : A) × (get_elem? xs i ≡ some x)
get_elem?-some [] i h = absurd (omega arith)
get_elem?-some (x ∷ xs) zero h = (x, refl)
get_elem?-some (x ∷ xs) (suc i) h = get_elem?-some xs i (omega arith)

pick-some {ℓ} : {A : Type ℓ} (i : ℕ) (xs : List A) → 0 < length xs → (x : A) × (pick i xs ≡ some x)
unfolding pick
pick-some i [] h = absurd (omega arith)
pick-some i (x ∷ xs) h = get_elem?-some (x ∷ xs) _ (mod-lt i (omega arith))

some_close {ℓ} :
    {A : Type ℓ} (f : A → ℕ) (k : ℕ) (x : A) (xs : List A)
    → least f x xs ≤ k
    → 0 < length (filter (λ y. leb (f y) k) (x ∷ xs))
some_close f k x [] h = ground arith
some_close f k x (y ∷ ys) h = elim (Bool-cases (leb (f x) k)) [
  | inl here ↦ rw here (omega arith)
  | inr far ↦ rw far (some_close f k y ys (ground arith))
]

some_least {ℓ} :
    {A : Type ℓ} (f : A → ℕ) (k : ℕ) (x : A) (xs : List A)
    → k ≡ least f x xs
    → 0 < length (filter (λ y. f y == k) (x ∷ xs))
some_least f k x [] h = ground (arith, eq_iff (f x) k)
some_least f k x (y ∷ ys) h = elim (Bool-cases (f x == k)) [
  | inl here ↦ rw here (omega arith)
  | inr far ↦ rw far (some_least f k y ys (ground (arith, eq_iff (f x) k)))
]

some_tied : (r : Router) (gs : List Scored) → 0 < length gs → 0 < length (tied_of r gs)
some_tied r [] h = h
some_tied r (g ∷ gs) h = some_least (λ c. inflight r c.backend) _ g gs refl

some_good : (r : Router) (s : Scored) (ss : List Scored) → 0 < length (good_of r s ss)
unfolding good_of
some_good r s ss = some_close Scored.ttft _ s ss (omega arith)

choose_among-some :
    (r : Router) (found : Dict Text ℕ) (fallback : Option Text) (ss : List Scored) (b : Text)
    (bs : List Text)
    → (c : Text × ℕ) × ((choose_among r found fallback ss (b ∷ bs)).1 ≡ some c)
unfolding choose_among
choose_among-some r found none [] b bs = (_, refl)
choose_among-some r found (some []) [] b bs = (_, refl)
choose_among-some r found (some (c ∷ f)) [] b bs = (_, refl)
choose_among-some r found fallback (s ∷ ss) b bs =
    let (t, p) = pick-some r.rr (tied_of r (good_of r s ss)) (some_tied r _ (some_good r s ss)) in
    ((t.backend, t.blocks), rw p)

-- With any strategy, a router finds a backend for a request when there is a candidate at all.
pub choose_by-some :
    (r : Router) (strategy : Strategy) (hashes : List ℕ) (tokens : ℕ) (b : Text) (bs : List Text)
    → (c : Text × ℕ) × ((choose_by r strategy hashes tokens (b ∷ bs)).1 ≡ some c)
unfolding choose_by
choose_by-some r round_robin hashes tokens b bs =
    let (t, p) = pick-some r.rr (b ∷ bs) (omega arith) in ((t, 0), rw p)
choose_by-some r consistent_hash hashes tokens b bs =
    let (t, p) = pick-some (first_or_zero hashes) (b ∷ bs) (omega arith) in ((t, 0), rw p)
choose_by-some r prefix_tree hashes tokens b bs = choose_among-some r _ _ _ b bs

saturated-scored :
    (r : Router) (tokens : ℕ) (found : Dict Text ℕ) (cands : List Text)
    → All (λ c. is_saturated r c ≡ true) cands
    → scored_of r tokens found cands ≡ []
unfolding scored_of
saturated-scored r tokens found [] h = refl
saturated-scored r tokens found (b ∷ bs) h = rw h.0 (saturated-scored r tokens found bs h.1)

-- A backend that the fallback has passed over has no less load; what holds of all holds of the fallback.
fallback-le :
    (P : Text → Type 0) (r : Router) (e : Text) (cands : List Text)
    → All (λ c. is_saturated r c ≡ true) cands
    → P e
    → All P cands
    → (c : Text) × (fallback_of r (some e) cands ≡ some c)
      × P c
      × (inflight r c ≤ inflight r e)
      × All (λ d. inflight r c ≤ inflight r d) cands
unfolding fallback_of
fallback-le P r e [] h pe p = (e, refl, pe, omega arith, tt)
fallback-le P r e (b ∷ bs) h pe p = elim (Bool-cases (ltb (inflight r b) (inflight r e))) [
  | inl less ↦
      let (c, is, pc, le, all) = fallback-le P r b bs h.1 p.0 p.1 in
      (c, rw (h.0, less) is, pc, ground (arith, le, less), (le, all))
  | inr more ↦
      let (c, is, pc, le, all) = fallback-le P r e bs h.1 pe p.1 in
      (c, rw (h.0, more) is, pc, le, (ground (arith, le, more), all))
]

-- Where the fallback is an id that is not empty, it is taken.
or_first-some :
    (b : Text) (fallback : Option Text) (cands : List Text)
    → fallback ≡ some b
    → b ≢ []
    → or_first fallback cands ≡ some b
or_first-some [] fallback cands e ne = absurd (ne refl)
or_first-some (c ∷ b) fallback cands e ne = rw e

-- If every candidate is saturated, and none has an empty id, the prefix-tree strategy sends the
-- request to one that has the least load of all.
pub least_of_saturated :
    (r : Router) (hashes : List ℕ) (tokens : ℕ) (b : Text) (bs : List Text)
    → All (λ c. is_saturated r c ≡ true) (b ∷ bs)
    → All (λ c. c ≢ []) (b ∷ bs)
    → (c : Text) × ((choose_by r prefix_tree hashes tokens (b ∷ bs)).1
        ≡ some (c, Dict.get_or c 0 (Radix.match r.tree hashes)))
      × All (λ d. inflight r c ≤ inflight r d) (b ∷ bs)
unfolding choose_by choose_among
least_of_saturated r hashes tokens b bs h named =
    let (c, is, c_named, le, all) = fallback-le (λ c. c ≢ []) r b bs h.1 named.0 named.1 in
    let found : fallback_of r none (b ∷ bs) ≡ some c = unfold fallback_of in rw h.0 is in
    let taken = or_first-some c (fallback_of r none (b ∷ bs)) (b ∷ bs) found c_named in
    (
      c,
      rw (saturated-scored r tokens (Radix.match r.tree hashes) (b ∷ bs) h, choose_among, taken)
          refl,
      (le, all),
    )
