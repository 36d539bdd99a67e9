-- ===== src/Server/Loop.antt =====
-- gateway/server.py: whole runs of the failover loop.
use llm_inference.Base.{
  ℕ, zero, suc, ◌+◌, ◌≤◌, ◌≡◌, ◌≢◌, refl, sym, ap, ◌∙◌, inl, inr, Bool, true, false, Option, List,
  [], ◌∷◌, All, length, arith, ◌==◌, eq_iff, contains, if◌then◌else◌, Bool-cases,
}
use llm_inference.Base.Text.{Text, text_eq}
use llm_inference.Base.Dict
use llm_inference.Base.Dict.{Dict}
use llm_inference.Router.{RouteResult, Strategy}
use llm_inference.Server.State.{Gateway, load_of}
use llm_inference.Server.Dispatch.{
  World, Outcome, raised, unreachable, reached, commit, give_up, remove_first, route, failover,
}
use llm_inference.Server.Loads.{SameLoad, OneMore}
use llm_inference.Server.Failover.{
  commit-same, route-same, route-member, route-some, has-set_health, healthy-set_health, healthy_in,
  contains-remove_first, length-remove_first, All-remove_first, All-contains,
}

-- Every backend of the list is registered.
abbrev pub IsRegistered : {Tokenizer : Type 0} → Gateway Tokenizer → List Text → Type 0
IsRegistered g xs = All (λ b. Dict.has b g.registry.by_id ≡ true) xs

abbrev is_reached : Outcome → Bool
is_reached (reached r) = true
is_reached unreachable = false
is_reached raised = false

reached-ne-unreachable : (r : RouteResult) → reached r ≢ unreachable
reached-ne-unreachable r e = ground (arith, ap is_reached e)

module _ {Tokenizer : Type 0} where
  -- What the loop adds to the load, by its outcome.
  abbrev pub Carried : Outcome → Gateway Tokenizer → Gateway Tokenizer → Type 0
  Carried (reached r) g g' = OneMore r.backend_id r.tokens (load_of g) (load_of g')
  Carried unreachable g g' = SameLoad (load_of g) (load_of g')
  Carried raised g g' = ⊥

module _ {Tokenizer : Type 0} (from_pretrained : Text → Option Tokenizer)
    (encode_ids : Tokenizer → Text → List ℕ) (w : World) (prompt : Text) (strategy : Strategy)
    (seed : ℕ) where
  abbrev run : ℕ → ℕ → List Text → Gateway Tokenizer → Gateway Tokenizer × Outcome × ℕ
  run = failover from_pretrained encode_ids w prompt strategy seed

  -- The state after the router has chosen `r` from candidates, and has been told to dispatch it.
  abbrev sent : List Text → RouteResult → Gateway Tokenizer → Gateway Tokenizer
  sent cs r g = commit r (route from_pretrained encode_ids prompt cs strategy seed g).0

  abbrev next : ℕ → List Text → RouteResult → Gateway Tokenizer → Gateway Tokenizer
  next k cs r g = give_up r (w.clock k) (sent cs r g)

  registry-sent :
      (cs : List Text) (r : RouteResult) (g : Gateway Tokenizer)
      → (sent cs r g).registry ≡ g.registry
  registry-sent cs r g =
      (commit-same r (route from_pretrained encode_ids prompt cs strategy seed g).0).0
      ∙ (route-same from_pretrained encode_ids prompt cs strategy seed g).1

  has-next :
      (k : ℕ) (cs : List Text) (r : RouteResult) (g : Gateway Tokenizer) (b : Text)
      → Dict.has b (next k cs r g).registry.by_id ≡ Dict.has b g.registry.by_id
  unfolding give_up
  has-next k cs r g b =
      has-set_health r.backend_id b false (sent cs r g).registry
      ∙ ap (λ q. Dict.has b q.by_id) (registry-sent cs r g)

  next-IsRegistered :
      (k : ℕ) (cs : List Text) (r : RouteResult) (g : Gateway Tokenizer) (bs : List Text)
      → IsRegistered g bs
      → IsRegistered (next k cs r g) bs
  next-IsRegistered k cs r g [] h = tt
  next-IsRegistered k cs r g (b ∷ bs) h =
      (has-next k cs r g b ∙ h.0, next-IsRegistered k cs r g bs h.1)

  -- One round, by what it comes to: the backend accepts, or the loop goes on without it.
  data Round (n k : ℕ) (cs : List Text) (g : Gateway Tokenizer) : Type 0 where
    accepted :
        (r : RouteResult)
        → contains r.backend_id cs ≡ true
        → w.connect k r.backend_id ≡ true
        → run (suc n) k cs g ≡ (sent cs r g, reached r, k)
        → Round n k cs g
    refused :
        (r : RouteResult)
        → contains r.backend_id cs ≡ true
        → w.connect k r.backend_id ≡ false
        → run (suc n) k cs g ≡ run n (k + 1) (remove_first r.backend_id cs) (next k cs r g)
        → Round n k cs g

  round :
      (n k : ℕ) (b : Text) (bs : List Text) (g : Gateway Tokenizer)
      → IsRegistered g (b ∷ bs)
      → Round n k (b ∷ bs) g
  unfolding failover
  round n k b bs g h =
      let (r, found) = route-some from_pretrained encode_ids prompt b bs strategy seed g in
      let member =
        route-member from_pretrained encode_ids prompt (b ∷ bs) strategy seed g r found in
      let here : Dict.has r.backend_id (sent (b ∷ bs) r g).registry.by_id ≡ true =
        ap (λ q. Dict.has r.backend_id q.by_id) (registry-sent (b ∷ bs) r g)
        ∙ All-contains (λ x. Dict.has x g.registry.by_id ≡ true) r.backend_id (b ∷ bs) h member in
      elim (Bool-cases (w.connect k r.backend_id)) [
        | inl took ↦ accepted r member took (rw (found, failover, here, took) refl)
        | inr left ↦ refused r member left (rw (found, failover, here, left) refl)
      ]

  -- Whether the gateway takes a backend for healthy.
  abbrev pub healthy_at : Text → Gateway Tokenizer → Bool
  healthy_at b g = healthy_in (Dict.get b g.registry.by_id)

  healthy-next :
      (k : ℕ) (cs : List Text) (r : RouteResult) (g : Gateway Tokenizer) (b : Text)
      → healthy_at b (next k cs r g) ≡ (if r.backend_id == b then false else healthy_at b g)
  unfolding give_up
  healthy-next k cs r g b =
      healthy-set_health r.backend_id b (sent cs r g).registry
      ∙ ap (λ q. if r.backend_id == b then false else healthy_in (Dict.get b q.by_id))
          (registry-sent cs r g)

  rest-IsRegistered :
      (k : ℕ) (cs : List Text) (r : RouteResult) (g : Gateway Tokenizer)
      → IsRegistered g cs
      → IsRegistered (next k cs r g) (remove_first r.backend_id cs)
  rest-IsRegistered k cs r g h =
      next-IsRegistered k cs r g (remove_first r.backend_id cs)
        (All-remove_first (λ x. Dict.has x g.registry.by_id ≡ true) r.backend_id cs h)

  -- The loop makes no backend healthy.
  stays_unhealthy :
      (n k : ℕ) (cs : List Text) (g : Gateway Tokenizer) (b : Text)
      → IsRegistered g cs
      → healthy_at b g ≡ false
      → healthy_at b (run n k cs g).0 ≡ false
  unfolding failover
  stays_unhealthy zero k cs g b h sick = sick
  stays_unhealthy (suc n) k [] g b h sick = sick
  stays_unhealthy (suc n) k (c ∷ cs) g b h sick = elim (round n k c cs g h) [
    | accepted r member took e ↦
        ap (λ x. healthy_at b x.0) e
        ∙ ap (λ q. healthy_in (Dict.get b q.by_id)) (registry-sent (c ∷ cs) r g)
        ∙ sick
    | refused r member left e ↦
        ap (λ x. healthy_at b x.0) e
        ∙ stays_unhealthy n (k + 1) (remove_first r.backend_id (c ∷ cs)) (next k (c ∷ cs) r g) b
            (rest-IsRegistered k (c ∷ cs) r g h)
            (healthy-next k (c ∷ cs) r g b ∙ ground (arith, sick))
  ]

  -- If the loop has at least as many rounds as there are registered candidates and reaches none, every
  -- candidate has been marked unhealthy.
  pub failover-marks :
      (n k : ℕ) (b : Text) (cs : List Text) (g : Gateway Tokenizer)
      → IsRegistered g cs
      → length cs ≤ n
      → contains b cs ≡ true
      → (run n k cs g).1 ≡ unreachable
      → healthy_at b (run n k cs g).0 ≡ false
  failover-marks n k b [] g h fits m none_up = absurd (unfold contains in ground (arith, m))
  failover-marks zero k b (c ∷ cs) g h fits m none_up = absurd (omega arith)
  failover-marks (suc n) k b (c ∷ cs) g h fits m none_up = elim (round n k c cs g h) [
    | accepted r member took e ↦ absurd (reached-ne-unreachable r (sym (ap (λ x. x.1) e) ∙ none_up))
    | refused r member left e ↦
        let rest = remove_first r.backend_id (c ∷ cs) in
        let g' = next k (c ∷ cs) r g in
        let shorter = length-remove_first r.backend_id (c ∷ cs) member in
        let h' = rest-IsRegistered k (c ∷ cs) r g h in
        ap (λ x. healthy_at b x.0) e ∙ elim (Bool-cases (r.backend_id == b)) [
          | inl same ↦
              stays_unhealthy n (k + 1) rest g' b h'
                (healthy-next k (c ∷ cs) r g b ∙ ground (arith, same))
          | inr other ↦
              failover-marks n (k + 1) b rest g' h' (omega arith)
                (contains-remove_first r.backend_id b (c ∷ cs)
                  (ground (arith, eq_iff r.backend_id b, other)) m)
                (sym (ap (λ x. x.1) e) ∙ none_up)
        ]
  ]

  -- The loop does not touch the rate limiter.
  pub failover-limiter :
      (n k : ℕ) (cs : List Text) (g : Gateway Tokenizer)
      → IsRegistered g cs
      → (run n k cs g).0.limiter ≡ g.limiter
  unfolding failover give_up
  failover-limiter zero k cs g h = refl
  failover-limiter (suc n) k [] g h = refl
  failover-limiter (suc n) k (c ∷ cs) g h =
      let routed = (route from_pretrained encode_ids prompt (c ∷ cs) strategy seed g).0 in
      let kept = (route-same from_pretrained encode_ids prompt (c ∷ cs) strategy seed g).3 in
      elim (round n k c cs g h) [
        | accepted r member took e ↦ ap (λ x. x.0.limiter) e ∙ (commit-same r routed).2 ∙ kept
        | refused r member left e ↦
            ap (λ x. x.0.limiter) e
            ∙ failover-limiter n (k + 1) (remove_first r.backend_id (c ∷ cs)) (next k (c ∷ cs) r g)
                (rest-IsRegistered k (c ∷ cs) r g h)
            ∙ (commit-same r routed).2
            ∙ kept
      ]
