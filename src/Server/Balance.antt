-- ===== src/Server/Balance.antt =====
-- gateway/server.py: the tenant's requests in flight and the load of the backends, over the parts of
-- `chat_completions`.
use mathlib.Core.Option.{some-injective, none-ne-some}
use llm_inference.Base.Int.{ℤ}
use llm_inference.Base.{
  ℕ, ◌+◌, ◌-◌, ◌≡◌, refl, sym, ap, ◌∙◌, inl, inr, Bool, true, false, Option, none, some, List, [],
  ◌∷◌, All, filter, arith, eq_iff, ltb, if◌then◌else◌, Bool-cases, Option-cases, All-filter,
}
use llm_inference.Base.Text.{Text, text_eq}
use llm_inference.Base.Dict.{get_or-set}
use llm_inference.Load.{LoadTracker}
use llm_inference.Registry.{fall_back}
use llm_inference.Tenancy
use llm_inference.Tenancy.{Tenant, RateLimiter, inflight_of}
use llm_inference.Tenancy.Limits.{admit-inflight}
use llm_inference.Affinity.{
  ChunkAffinityIndex, RagConfig, cost, eligible_of, has_room, cheapest, best_of, or_all,
  choose_rag_backend, RagRouteResult,
}
use llm_inference.Router.Choice.{All-imp}
use llm_inference.Server.State.{Gateway, load_of}
use llm_inference.Server.Request.{ServerConfig, or_ids, pinned_or}
use llm_inference.Server.Stages.{release_quota, admit_quota, pin_session}

-- What a request holds of its tenant's quota.
abbrev pub held : ServerConfig → ℕ
held cfg = if cfg.rate_limit_enabled then 1 else 0

inflight-release :
    (t : Tenant) (reserved : ℤ) (actual : ℕ) (l : RateLimiter)
    → inflight_of (Tenancy.release t reserved actual l) t ≡ inflight_of l t - 1
unfolding Tenancy.release
inflight-release t reserved actual l =
    ground (arith, get_or-set t.id t.id (inflight_of l t - 1) 0 l.inflight, eq_iff t.id t.id)

module _ {Tokenizer : Type 0} where
  -- A step that keeps the registry, the limiter and the load.
  pub record Frame (g g' : Gateway Tokenizer) : Type 0 where
    pub registry : g'.registry ≡ g.registry
    pub limiter : g'.limiter ≡ g.limiter
    pub load : load_of g' ≡ load_of g

  pub Frame-refl : (g : Gateway Tokenizer) → Frame g g
  Frame-refl g = record { registry = refl; limiter = refl; load = refl }

  pub Frame-trans : (g h i : Gateway Tokenizer) → Frame g h → Frame h i → Frame g i
  Frame-trans g h i p q = record {
    registry = q.registry ∙ p.registry;
    limiter = q.limiter ∙ p.limiter;
    load = q.load ∙ p.load;
  }

  pub release_quota-inflight :
      (cfg : ServerConfig) (t : Tenant) (reserved : ℤ) (actual k : ℕ) (g : Gateway Tokenizer)
      → inflight_of g.limiter t ≡ k + held cfg
      → inflight_of (release_quota cfg t reserved actual g).limiter t ≡ k
  unfolding release_quota
  release_quota-inflight cfg t reserved actual k g h = elim (Bool-cases cfg.rate_limit_enabled) [
    | inl on ↦
        let h' = rw on at h in
        rw on (inflight-release t reserved actual g.limiter ∙ ground (arith, h'))
    | inr off ↦ let h' = rw off at h in rw off (ground (arith, h'))
  ]

  pub release_quota-load :
      (cfg : ServerConfig) (t : Tenant) (reserved : ℤ) (actual : ℕ) (g : Gateway Tokenizer)
      → load_of (release_quota cfg t reserved actual g) ≡ load_of g
  unfolding release_quota
  release_quota-load cfg t reserved actual g = elim (Bool-cases cfg.rate_limit_enabled) [
    | inl on ↦ rw on refl
    | inr off ↦ rw off refl
  ]

  pub admit_quota-inflight :
      (cfg : ServerConfig) (t : Tenant) (cost : ℤ) (now : ℕ) (g : Gateway Tokenizer)
      → let (g', passes) = admit_quota cfg t cost now g in
        (load_of g' ≡ load_of g)
        × (g'.registry ≡ g.registry)
        × (passes ≡ true → inflight_of g'.limiter t ≡ inflight_of g.limiter t + held cfg)
        × (passes ≡ false → inflight_of g'.limiter t ≡ inflight_of g.limiter t)
  unfolding admit_quota
  admit_quota-inflight cfg t cost now g = elim (Bool-cases cfg.rate_limit_enabled) [
    | inl on ↦
        let (yes_case, no_case) = admit-inflight t cost now g.limiter in
        rw on (refl, refl, λ h. (yes_case h).1, no_case)
    | inr off ↦ rw off (refl, refl, λ h. ground arith, λ h. refl)
  ]

  pub pin_session-Frame :
      (sid : Option Text) (now : ℕ) (bs : List Text) (g : Gateway Tokenizer)
      → Frame g (pin_session sid now bs g).0
  unfolding pin_session
  pin_session-Frame none now bs g = Frame-refl g
  pin_session-Frame (some sid) now bs g = record { registry = refl; limiter = refl; load = refl }

pub filter-All :
    (P : Text → Type 0) (p : Text → Bool) (xs : List Text) → All P xs → All P (filter p xs)
filter-All P p xs h =
    All-imp (λ x. P x × (p x ≡ true)) P (filter p xs) (λ x q. q.0) (All-filter P p xs h)

pub or_ids-All :
    (P : Text → Type 0) (xs ys : List Text) → All P xs → All P ys → All P (or_ids xs ys)
or_ids-All P [] ys hx hy = hy
or_ids-All P (x ∷ xs) ys hx hy = hx

or_all-All : (P : Text → Type 0) (xs ys : List Text) → All P xs → All P ys → All P (or_all xs ys)
or_all-All P [] ys hx hy = hy
or_all-All P (x ∷ xs) ys hx hy = hx

cheapest-All :
    (P : Text → Type 0) (est : Text → ℕ) (b : Text) (bs : List Text)
    → P b
    → All P bs
    → P (cheapest est b bs)
unfolding cheapest
cheapest-All P est b [] hb hs = hb
cheapest-All P est b (c ∷ bs) hb hs = elim (Bool-cases (ltb (est c) (est b))) [
  | inl less ↦ rw less (cheapest-All P est c bs hs.0 hs.1)
  | inr more ↦ rw more (cheapest-All P est b bs hb hs.1)
]

best_of-All :
    (P : Text → Type 0) (est : Text → ℕ) (bs : List Text) (b : Text)
    → All P bs
    → best_of est bs ≡ some b
    → P b
best_of-All P est [] b h e = absurd (none-ne-some _ e)
best_of-All P est (c ∷ bs) b h e =
    let same = some-injective _ _ e in rw (sym same) (cheapest-All P est c bs h.0 h.1)

pub fall_back-All :
    (P : Text → Type 0) (xs ys : List Text) (fallback : Bool)
    → All P xs
    → All P ys
    → All P (fall_back xs ys fallback)
fall_back-All P [] ys true hx hy = hy
fall_back-All P [] ys false hx hy = tt
fall_back-All P (x ∷ xs) ys fallback hx hy = hx

pub pinned_or-All :
    (P : Text → Type 0) (o : Option Text) (bs : List Text)
    → ((b : Text) → o ≡ some b → P b)
    → All P bs
    → All P (pinned_or o bs)
pinned_or-All P none bs f h = h
pinned_or-All P (some b) bs f h = (f b refl, tt)

pub rag-All :
    (P : Text → Type 0) (ids : List ℕ) (bs : List Text) (x : ChunkAffinityIndex)
    (load : LoadTracker) (cfg : RagConfig) (r : RagRouteResult)
    → All P bs
    → choose_rag_backend ids bs x load cfg ≡ some r
    → P r.backend_id
unfolding choose_rag_backend eligible_of
rag-All P ids bs x load cfg r h e =
    let est = cost x load cfg ids in
    elim (Option-cases (best_of est (eligible_of load cfg bs))) [
      | inl nothing ↦ let e' = rw (choose_rag_backend, nothing) at e in absurd (none-ne-some _ e')
      | inr (c, found) ↦
          let e' = rw (choose_rag_backend, found) at e in
          rw (sym (ap (λ (y : RagRouteResult). y.backend_id) (some-injective _ _ e'))) (
            best_of-All P est (eligible_of load cfg bs) c
              (or_all-All P (filter (has_room load cfg) bs) bs
                (filter-All P (has_room load cfg) bs h) h)
              found)
    ]
