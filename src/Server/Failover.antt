-- ===== src/Server/Failover.antt =====
-- gateway/server.py: one round of the failover loop.
use mathlib.Core.Option.{some-injective, none-ne-some}
use llm_inference.Base.{
  ℕ, ◌+◌, ◌*◌, ◌≡◌, ◌≢◌, refl, sym, ap, inl, inr, Bool, true, false, Option, none, some, List, [],
  ◌∷◌, All, length, arith, ◌==◌, eq_iff, contains, if◌then◌else◌, Bool-cases, Option-cases,
}
use llm_inference.Base.Text.{Text, text_eq}
use llm_inference.Base.Dict
use llm_inference.Base.Dict.{Dict, get-set, has-get, get_or-set, has-set}
use llm_inference.Registry.{Backend, BackendRegistry, set_health}
use llm_inference.Router.{Router, RouteResult, Strategy, choose, choose_by, hashes_for}
use llm_inference.Router.Member.{choose_by-member, choose_by-same}
use llm_inference.Router.Totality.{choose_by-some}
use llm_inference.Cluster.Event.{ClusterEvent}
use llm_inference.Cluster.Coordinator.{ClusterCoordinator, publish_insert}
use llm_inference.Radix
use llm_inference.Server.State.{Gateway, load_of, tree_of, with_load, with_tree, publish}
use llm_inference.Server.Dispatch.{commit, give_up, remove_first, route}
use llm_inference.Server.Loads.{
  SameLoad, OneMore, on_dispatch-OneMore, on_complete-SameLoad, same-SameLoad, OneMore-after,
}

pub has-set_health :
    (id k : Text) (h : Bool) (r : BackendRegistry)
    → Dict.has k (set_health id h r).by_id ≡ Dict.has k r.by_id
unfolding set_health
has-set_health id k h r = elim (Option-cases (Dict.get id r.by_id)) [
  | inl absent ↦ rw (absent, set_health) refl
  | inr (b, found) ↦
      rw (found, set_health)
        (ground (
          arith,
          has-set id k (record b { healthy = h }) r.by_id,
          has-get id r.by_id,
          found,
          eq_iff id k,
          ap (λ x. Dict.has x r.by_id),
        ))
]

-- Whether a backend is registered as healthy.
abbrev pub healthy_in : Option Backend → Bool
healthy_in none = false
healthy_in (some b) = b.healthy

pub healthy-set_health :
    (id k : Text) (r : BackendRegistry)
    → healthy_in (Dict.get k (set_health id false r).by_id)
      ≡ (if id == k then false else healthy_in (Dict.get k r.by_id))
unfolding set_health
healthy-set_health id k r = elim (Option-cases (Dict.get id r.by_id)) [
  | inl absent ↦
      rw (absent, set_health) (ground (arith, absent, eq_iff id k, ap (λ x. Dict.get x r.by_id)))
  | inr (b, found) ↦
      rw (found, set_health)
        (ground (arith, get-set id k (record b { healthy = false }) r.by_id, eq_iff id k))
]

pub contains-remove_first :
    (b c : Text) (xs : List Text)
    → b ≢ c
    → contains c xs ≡ true
    → contains c (remove_first b xs) ≡ true
unfolding contains remove_first
contains-remove_first b c [] ne h = h
contains-remove_first b c (x ∷ xs) ne h =
    ground (arith, eq_iff x b, eq_iff x c, contains-remove_first b c xs ne, ne)

pub still_in :
    (b c : Text) (xs : List Text) → contains c (remove_first b xs) ≡ true → contains c xs ≡ true
unfolding contains remove_first
still_in b c [] h = h
still_in b c (x ∷ xs) h = ground (arith, eq_iff x b, still_in b c xs)

pub length-remove_first :
    (b : Text) (xs : List Text) → contains b xs ≡ true → length (remove_first b xs) + 1 ≡ length xs
unfolding contains remove_first
length-remove_first b [] h = ground (arith, h)
length-remove_first b (x ∷ xs) h = ground (arith, eq_iff x b, length-remove_first b xs)

pub All-remove_first :
    (P : Text → Type 0) (b : Text) (xs : List Text) → All P xs → All P (remove_first b xs)
unfolding remove_first
All-remove_first P b [] h = tt
All-remove_first P b (x ∷ xs) h = elim (Bool-cases (x == b)) [
  | inl here ↦ rw here h.1
  | inr there ↦ rw there (h.0, All-remove_first P b xs h.1)
]

pub All-contains :
    (P : Text → Type 0) (b : Text) (xs : List Text) → All P xs → contains b xs ≡ true → P b
unfolding contains
All-contains P b [] h m = absurd (ground (arith, m))
All-contains P b (x ∷ xs) h m = elim (Bool-cases (x == b)) [
  | inl here ↦ rw⁻¹ ((eq_iff x b).0 here) h.0
  | inr there ↦ All-contains P b xs h.1 (ground (arith, m, there))
]

module _ {Tokenizer : Type 0} where
  -- What a publication leaves alone.
  pub publish-same :
      (call : ClusterCoordinator → ClusterCoordinator × List ClusterEvent) (g : Gateway Tokenizer)
      → ((publish call g).router ≡ g.router)
        × ((publish call g).registry ≡ g.registry)
        × ((publish call g).breaker ≡ g.breaker)
        × ((publish call g).limiter ≡ g.limiter)
        × ((publish call g).scheduler ≡ g.scheduler)
        × ((publish call g).sessions ≡ g.sessions)
  unfolding publish
  publish-same call g = elim (Option-cases g.cluster) [
    | inl off ↦ rw (off, publish) (refl, refl, refl, refl, refl, refl)
    | inr (c, on) ↦ rw (on, publish) (refl, refl, refl, refl, refl, refl)
  ]

  pub commit-OneMore :
      (r : RouteResult) (g : Gateway Tokenizer)
      → OneMore r.backend_id r.tokens (load_of g) (load_of (commit r g))
  unfolding commit with_load with_tree
  commit-OneMore r g =
      let inserted = with_tree (Radix.insert r.hashes r.backend_id (tree_of g)) g in
      let told = publish (publish_insert r.hashes r.backend_id) inserted in
      let kept = (publish-same (publish_insert r.hashes r.backend_id) inserted).0 in
      OneMore-after r.backend_id r.tokens (load_of g) (load_of told) (load_of (commit r g))
        (same-SameLoad (load_of g) (load_of told) (ap (λ (x : Router). x.load) kept))
        (on_dispatch-OneMore r.backend_id r.tokens (load_of told))

  pub commit-same :
      (r : RouteResult) (g : Gateway Tokenizer)
      → ((commit r g).registry ≡ g.registry)
        × ((commit r g).breaker ≡ g.breaker)
        × ((commit r g).limiter ≡ g.limiter)
        × ((commit r g).scheduler ≡ g.scheduler)
  unfolding commit with_load with_tree
  commit-same r g =
      let inserted = with_tree (Radix.insert r.hashes r.backend_id (tree_of g)) g in
      let kept = publish-same (publish_insert r.hashes r.backend_id) inserted in
      (kept.1, kept.2, kept.3, kept.4)

  pub give_up-SameLoad :
      (r : RouteResult) (now : ℕ) (g : Gateway Tokenizer)
      → SameLoad (load_of g) (load_of (give_up r now (commit r g)))
  unfolding give_up with_load
  give_up-SameLoad r now g =
      on_complete-SameLoad r.backend_id r.tokens (load_of g) (load_of (commit r g))
        (commit-OneMore r g)

module _ {Tokenizer : Type 0} (from_pretrained : Text → Option Tokenizer)
    (encode_ids : Tokenizer → Text → List ℕ) where
  -- What a decision of the router leaves alone.
  pub route-same :
      (prompt : Text) (remaining : List Text) (strategy : Strategy) (seed : ℕ)
      (g : Gateway Tokenizer)
      → let g' = (route from_pretrained encode_ids prompt remaining strategy seed g).0 in
        (load_of g' ≡ load_of g)
        × (g'.registry ≡ g.registry)
        × (g'.breaker ≡ g.breaker)
        × (g'.limiter ≡ g.limiter)
        × (g'.scheduler ≡ g.scheduler)
  unfolding route choose
  route-same prompt remaining strategy seed g =
      let (l, hashes, mode) =
        hashes_for from_pretrained encode_ids g.router.cfg g.loaded prompt seed in
      let (k, e) =
        choose_by-same g.router strategy hashes (length hashes * g.router.cfg.block_tokens)
          remaining in
      (ap (λ (x : Router). x.load) e, refl, refl, refl, refl)

  pub route-member :
      (prompt : Text) (remaining : List Text) (strategy : Strategy) (seed : ℕ)
      (g : Gateway Tokenizer) (r : RouteResult)
      → (route from_pretrained encode_ids prompt remaining strategy seed g).1 ≡ some r
      → contains r.backend_id remaining ≡ true
  unfolding route choose
  route-member prompt remaining strategy seed g r e =
      let (l, hashes, mode) =
        hashes_for from_pretrained encode_ids g.router.cfg g.loaded prompt seed in
      let tokens = length hashes * g.router.cfg.block_tokens in
      elim (Option-cases (choose_by g.router strategy hashes tokens remaining).1) [
        | inl nothing ↦ let e' = rw nothing at e in absurd (none-ne-some _ e')
        | inr (c, p) ↦
            let e' = rw p at e in
            let same = some-injective _ _ e' in
            rw (sym (ap (λ (x : RouteResult). x.backend_id) same))
              (choose_by-member g.router strategy hashes tokens remaining c.0 c.1 p)
      ]

  pub route-some :
      (prompt : Text) (b : Text) (bs : List Text) (strategy : Strategy) (seed : ℕ)
      (g : Gateway Tokenizer)
      → (r : RouteResult) × ((route from_pretrained encode_ids prompt (b ∷ bs) strategy seed g).1
          ≡ some r)
  unfolding route choose
  route-some prompt b bs strategy seed g =
      let (l, hashes, mode) =
        hashes_for from_pretrained encode_ids g.router.cfg g.loaded prompt seed in
      let tokens = length hashes * g.router.cfg.block_tokens in
      let (c, p) = choose_by-some g.router strategy hashes tokens b bs in
      let found : RouteResult = record {
        backend_id = c.0;
        hashes = hashes;
        tokens = tokens;
        match_blocks = c.1;
        hash_mode = mode;
      } in
      (found, rw p refl)
