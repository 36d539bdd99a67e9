-- ===== src/Router/Member.antt =====
-- gateway/router.py: the chosen backend among the candidates, and what a choice leaves alone.
use mathlib.Core.Option.{some-injective, none-ne-some}
use llm_inference.Base.{
  ℕ, ◌+◌, ◌≡◌, refl, sym, ap, ◌∙◌, inl, inr, true, Option, none, some, List, [], ◌∷◌, All,
  map_option, arith, eq_iff, contains, ltb, Bool-cases, Option-cases, list_cases,
}
use llm_inference.Base.Text.{Text, text_eq}
use llm_inference.Radix
use llm_inference.Router.{
  Router, Strategy, round_robin, consistent_hash, prefix_tree, choose_by, choose_among, fallback_of,
  scored_of, pick, tied_of, good_of, is_saturated, inflight, or_first, advance, first_or_zero,
}
use llm_inference.Router.Choice.{IsScored, scored_of-All, All-pick, All-imp, picked}

-- The candidates are candidates.
candidates-All : (cands : List Text) → All (λ b. contains b cands ≡ true) cands
unfolding contains
candidates-All [] = tt
candidates-All (b ∷ bs) = (
  ground (arith, eq_iff b b),
  All-imp (λ c. contains c bs ≡ true) (λ c. contains c (b ∷ bs) ≡ true) bs
      (λ c h. ground (arith, h)) (candidates-All bs),
)

picked-member :
    (i : ℕ) (cands : List Text) (m : ℕ) (b : Text) (n : ℕ)
    → map_option {B = Text × ℕ} (λ c. (c, m)) (pick i cands) ≡ some (b, n)
    → contains b cands ≡ true
picked-member i cands m b n e = elim (Option-cases (pick i cands)) [
  | inl nothing ↦ let e' = rw nothing at e in absurd (none-ne-some _ e')
  | inr (c, p) ↦
      let e' = rw p at e in
      let same : (c, m) ≡ (b, n) = some-injective _ _ e' in
      rw (sym (ap (λ q. q.0) same))
        (All-pick (λ x. contains x cands ≡ true) i cands c (candidates-All cands) p)
]

advance-1 : (r : Router) (o : Option (Text × ℕ)) → (advance r o).1 ≡ o
advance-1 r none = refl
advance-1 r (some c) = refl

advance-same :
    (r : Router) (o : Option (Text × ℕ)) → (k : ℕ) × ((advance r o).0 ≡ record r { rr = k })
advance-same r none = (r.rr, refl)
advance-same r (some c) = (r.rr + 1, refl)

-- The fallback that is kept is one of the candidates, or the one that there was.
fallback-member :
    (r : Router) (all : List Text) (best : Option Text) (bs : List Text) (b : Text)
    → ((c : Text) → best ≡ some c → contains c all ≡ true)
    → All (λ c. contains c all ≡ true) bs
    → fallback_of r best bs ≡ some b
    → contains b all ≡ true
unfolding fallback_of
fallback-member r all best [] b h hs e = h b e
fallback-member r all none (c ∷ bs) b h hs e = elim (Bool-cases (is_saturated r c)) [
  | inl full ↦
      let e' = rw full at e in
      fallback-member r all (some c) bs b (λ d p. rw (sym (some-injective _ _ p)) hs.0) hs.1 e'
  | inr room ↦ let e' = rw room at e in fallback-member r all none bs b h hs.1 e'
]
fallback-member r all (some d) (c ∷ bs) b h hs e = elim (Bool-cases (is_saturated r c)) [
  | inr room ↦ let e' = rw room at e in fallback-member r all (some d) bs b h hs.1 e'
  | inl full ↦ elim (Bool-cases (ltb (inflight r c) (inflight r d))) [
    | inl less ↦
        let e' = rw (full, less) at e in
        fallback-member r all (some c) bs b (λ x p. rw (sym (some-injective _ _ p)) hs.0) hs.1 e'
    | inr more ↦ let e' = rw (full, more) at e in fallback-member r all (some d) bs b h hs.1 e'
  ]
]

first-member :
    (fallback : Option Text) (cands : List Text) (b : Text)
    → ((c : Text) → fallback ≡ some c → contains c cands ≡ true)
    → or_first fallback cands ≡ some b
    → contains b cands ≡ true
unfolding contains
first-member (some (c ∷ f)) cands b h e = h b e
first-member (some []) [] b h e = absurd (none-ne-some _ e)
first-member (some []) (c ∷ cands) b h e =
    let same = some-injective _ _ e in rw (sym same) (ground (arith, eq_iff c c))
first-member none [] b h e = absurd (none-ne-some _ e)
first-member none (c ∷ cands) b h e =
    let same = some-injective _ _ e in rw (sym same) (ground (arith, eq_iff c c))

-- Every strategy sends a request to one of its candidates, where it sends it anywhere.
pub choose_by-member :
    (r : Router) (strategy : Strategy) (hashes : List ℕ) (tokens : ℕ) (cands : List Text) (b : Text)
    (m : ℕ)
    → (choose_by r strategy hashes tokens cands).1 ≡ some (b, m)
    → contains b cands ≡ true
unfolding choose_by choose_among
choose_by-member r round_robin hashes tokens cands b m e =
    picked-member r.rr cands 0 b m (sym (advance-1 r _) ∙ e)
choose_by-member r consistent_hash hashes tokens cands b m e =
    picked-member (first_or_zero hashes) cands 0 b m e
choose_by-member r prefix_tree hashes tokens cands b m e =
    let found = Radix.match r.tree hashes in
    elim (list_cases (scored_of r tokens found cands)) [
      | inl none_scored ↦
          let e' = rw (none_scored, choose_among) at e in
          elim (Option-cases (or_first (fallback_of r none cands) cands)) [
            | inl nothing ↦ let e'' = rw nothing at e' in absurd (none-ne-some _ e'')
            | inr (c, p) ↦
                let e'' = rw p at e' in
                let same = some-injective _ _ e'' in
                rw (sym (ap (λ q. q.0) same)) (
                  first-member (fallback_of r none cands) cands c
                    (λ d q.
                      fallback-member r cands none cands d (λ x z. absurd (none-ne-some _ z))
                        (candidates-All cands) q)
                    p)
          ]
      | inr (s, ss, some_scored) ↦ elim (Option-cases (pick r.rr (tied_of r (good_of r s ss)))) [
        | inl nothing ↦
            let e' = rw (some_scored, choose_among, nothing) at e in absurd (ground (arith, e'))
        | inr (t, p) ↦
            let e' = rw (some_scored, choose_among, p) at e in
            let same : (t.backend, t.blocks) ≡ (b, m) = some-injective _ _ e' in
            let known = rw some_scored at (scored_of-All r tokens found cands) in
            rw (sym (ap (λ q. q.0) same))
              (picked r (IsScored r tokens found cands) s ss t known p).0.member
      ]
    ]

-- A choice changes nothing of the router but its counter.
pub choose_by-same :
    (r : Router) (strategy : Strategy) (hashes : List ℕ) (tokens : ℕ) (cands : List Text)
    → (k : ℕ) × ((choose_by r strategy hashes tokens cands).0 ≡ record r { rr = k })
unfolding choose_by choose_among
choose_by-same r round_robin hashes tokens cands = advance-same r _
choose_by-same r consistent_hash hashes tokens cands = (r.rr, refl)
choose_by-same r prefix_tree hashes tokens cands =
    elim (list_cases (scored_of r tokens (Radix.match r.tree hashes) cands)) [
      | inl none_scored ↦ (r.rr, rw (none_scored, choose_among) refl)
      | inr (s, ss, some_scored) ↦
          let (k, e) =
            advance-same r
              (map_option (λ c. (c.backend, c.blocks)) (pick r.rr (tied_of r (good_of r s ss)))) in
          (k, rw (some_scored, choose_among) e)
    ]
