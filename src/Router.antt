-- ===== src/Router.antt =====
-- gateway/router.py, with gateway/extensions/ttft_predictor.py for the features and the blend: the
-- choice of a backend. Times are in 10^-9 ms, fractions in 10^-9 (`one` of Load is 1.0).
pub mod Choice
pub mod Member
pub mod Totality
mod Tests
use llm_inference.Base.{
  ℕ, zero, suc, ◌+◌, ◌-◌, ◌*◌, ◌/◌, ◌%◌, min, max, Bool, true, false, not, ◌&&◌, ◌||◌, Option, none,
  some, List, [], ◌∷◌, map, map_option, ◌==◌, if◌then◌else◌, length, get_elem?, filter, leb, ltb,
  nat_eq,
}
use llm_inference.Base.Text.{Text, text_eq}
use llm_inference.Base.Dict
use llm_inference.Base.Dict.{Dict}
use llm_inference.Hashing.{encode, block_hashes}
use llm_inference.Hashing.Bpe
use llm_inference.Hashing.Bpe.{Mode, char}
use llm_inference.Load.{LoadTracker, one, inflight_of, kv_of}
use llm_inference.Load.Fleet.{FleetLoadView, peer_inflight, peer_unhealthy}
use llm_inference.Radix
use llm_inference.Radix.{RadixTree}

pub record Config : Type 0 where
  pub block_chars : ℕ
  pub block_tokens : ℕ
  pub hash_cutoff_blocks : ℕ
  pub prefill_ms_per_token : ℕ
  pub service_ms_per_request : ℕ
  pub kv_pressure_cutoff : ℕ
  pub max_inflight : ℕ
  pub hysteresis_ms : ℕ
  pub use_bpe_hashing : Bool
  pub tokenizer_model : Text
  pub ttft_predictor_weight : ℕ

-- The strategies that `choose` tells apart; any other name is the prefix tree's.
pub data Strategy : Type 0 where
  round_robin : Strategy
  consistent_hash : Strategy
  prefix_tree : Strategy

pub record Features : Type 0 where
  pub prompt_tokens : ℕ
  pub match_blocks : ℕ
  pub uncached : ℕ
  pub inflight : ℕ
  pub kv_usage : ℕ
  pub backend_idx : ℕ

unfoldable pub idx_from : ℕ → List ℕ → ℕ
idx_from h [] = h
idx_from h (c ∷ s) = idx_from ((h * 31 + c) % 4294967296) s

unfoldable pub backend_idx_of : Text → ℕ
unfolding idx_from
backend_idx_of b = idx_from 0 (encode b) % 64

unfoldable pub features_for : ℕ → ℕ → ℕ → ℕ → ℕ → Text → Features
features_for prompt_tokens match_blocks block_tokens inflight kv_usage b = record {
  prompt_tokens = prompt_tokens;
  match_blocks = match_blocks;
  uncached = prompt_tokens - match_blocks * block_tokens;
  inflight = inflight;
  kv_usage = kv_usage;
  backend_idx = backend_idx_of b;
}

unfoldable pub blended_ttft : ℕ → Option ℕ → ℕ → ℕ
blended_ttft static_ms none weight = static_ms
blended_ttft static_ms (some predicted) weight =
    let w = min one weight in ((one - w) * static_ms + w * predicted) / one

-- The learned model, which is not code of the repository: whether one is loaded, and its estimate.
pub record Predictor : Type 0 where
  pub available : Bool
  pub predict : Features → Option ℕ

pub record Router : Type 0 where
  pub cfg : Config
  pub tree : RadixTree
  pub load : LoadTracker
  pub rr : ℕ
  pub predictor : Option Predictor
  pub fleet : Option FleetLoadView

pub record RouteResult : Type 0 where
  pub backend_id : Text
  pub hashes : List ℕ
  pub tokens : ℕ
  pub match_blocks : ℕ
  pub hash_mode : Mode

abbrev pub peer_load : Option FleetLoadView → Text → ℕ
peer_load none b = 0
peer_load (some fleet) b = peer_inflight fleet b

unfoldable pub inflight : Router → Text → ℕ
inflight r b = inflight_of r.load b + peer_load r.fleet b

abbrev pub peer_bad : Option FleetLoadView → Text → Bool
peer_bad none b = false
peer_bad (some fleet) b = peer_unhealthy fleet b

-- The guardrail of the loop over the candidates.
unfoldable pub is_saturated : Router → Text → Bool
is_saturated r b =
    peer_bad r.fleet b
    || ltb r.cfg.kv_pressure_cutoff (kv_of r.load b)
    || ltb r.cfg.max_inflight (inflight r b)

abbrev pub blend_with : Option Predictor → Features → ℕ → ℕ → ℕ
blend_with none features weight static_ttft = static_ttft
blend_with (some p) features weight static_ttft =
    if p.available then blended_ttft static_ttft (p.predict features) weight else static_ttft

unfoldable pub est_ttft : Router → ℕ → ℕ → Text → ℕ
est_ttft r tokens match_blocks b =
    let uncached = tokens - match_blocks * r.cfg.block_tokens in
    let static_ttft =
      r.cfg.prefill_ms_per_token * uncached + inflight r b * r.cfg.service_ms_per_request in
    blend_with r.predictor
      (features_for tokens match_blocks r.cfg.block_tokens (inflight r b) (kv_of r.load b) b)
      r.cfg.ttft_predictor_weight static_ttft

-- The saturated backend with the least load so far, of which the first wins.
abbrev pub less_loaded : Router → Option Text → Text → Option Text
less_loaded r none b = some b
less_loaded r (some best) b = if ltb (inflight r b) (inflight r best) then some b else some best

pub record Scored : Type 0 where
  pub ttft : ℕ
  pub backend : Text
  pub blocks : ℕ

unfoldable pub scored_of : Router → ℕ → Dict Text ℕ → List Text → List Scored
scored_of r tokens found [] = []
scored_of r tokens found (b ∷ bs) =
    let rest = scored_of r tokens found bs in
    if is_saturated r b
    then rest
    else record {
      ttft = est_ttft r tokens (Dict.get_or b 0 found) b;
      backend = b;
      blocks = Dict.get_or b 0 found;
    }
      ∷ rest

unfoldable pub fallback_of : Router → Option Text → List Text → Option Text
fallback_of r best [] = best
fallback_of r best (b ∷ bs) =
    fallback_of r (if is_saturated r b then less_loaded r best b else best) bs

-- `min(...)` of a list that has a first element.
abbrev pub least {ℓ} : {A : Type ℓ} → (A → ℕ) → A → List A → ℕ
least f x [] = f x
least f x (y ∷ ys) = min (f x) (least f y ys)

-- The backends within the hysteresis of the best estimate, and of them those with the least load.
unfoldable pub good_of : Router → Scored → List Scored → List Scored
good_of r s ss =
    let limit = least Scored.ttft s ss + r.cfg.hysteresis_ms in
    filter (λ c. leb c.ttft limit) (s ∷ ss)

abbrev pub tied_of : Router → List Scored → List Scored
tied_of r [] = []
tied_of r (g ∷ gs) =
    let load = least (λ c. inflight r c.backend) g gs in
    filter (λ c. inflight r c.backend == load) (g ∷ gs)

-- `xs[i % len(xs)]`; on an empty list the remainder raises ZeroDivisionError.
unfoldable pub pick {ℓ} : {A : Type ℓ} → ℕ → List A → Option A
pick i [] = none
pick i (x ∷ xs) = get_elem? (x ∷ xs) (i % length (x ∷ xs))

abbrev first {ℓ} : {A : Type ℓ} → List A → Option A
first [] = none
first (x ∷ xs) = some x

-- `fallback or cands[0]`: an empty id is as good as none.
abbrev pub or_first : Option Text → List Text → Option Text
or_first none cands = first cands
or_first (some []) cands = first cands
or_first (some (c ∷ b)) cands = some (c ∷ b)

-- `self._rr += 1`, after a choice that did not raise.
abbrev pub advance : Router → Option (Text × ℕ) → Router × Option (Text × ℕ)
advance r none = (r, none)
advance r (some c) = (record r { rr = r.rr + 1 }, some c)

-- Where `choose` sends a request, and how many blocks match there; `none` where it raises.
unfoldable pub choose_among :
    Router → Dict Text ℕ → Option Text → List Scored → List Text → Router × Option (Text × ℕ)
choose_among r found fallback [] cands =
    (r, map_option (λ b. (b, Dict.get_or b 0 found)) (or_first fallback cands))
choose_among r found fallback (s ∷ ss) cands =
    advance r (map_option (λ c. (c.backend, c.blocks)) (pick r.rr (tied_of r (good_of r s ss))))

abbrev pub first_or_zero : List ℕ → ℕ
first_or_zero [] = 0
first_or_zero (h ∷ hs) = h

unfoldable pub choose_by : Router → Strategy → List ℕ → ℕ → List Text → Router × Option (Text × ℕ)
choose_by r round_robin hashes tokens cands = advance r (map_option (λ b. (b, 0)) (pick r.rr cands))
choose_by r consistent_hash hashes tokens cands =
    (r, map_option (λ b. (b, 0)) (pick (first_or_zero hashes) cands))
choose_by r prefix_tree hashes tokens cands =
    let found = Radix.match r.tree hashes in
    choose_among r found (fallback_of r none cands) (scored_of r tokens found cands) cands

module _ {Tokenizer : Type 0} (from_pretrained : Text → Option Tokenizer)
    (encode_ids : Tokenizer → Text → List ℕ) where
  unfoldable pub hashes_for :
      Config → Option (Text × Tokenizer) → Text → ℕ → Option (Text × Tokenizer) × List ℕ × Mode
  hashes_for cfg loaded prompt seed =
      if cfg.use_bpe_hashing
      then Bpe.block_hashes_with_fallback from_pretrained encode_ids loaded prompt cfg.block_chars
          cfg.block_tokens cfg.hash_cutoff_blocks cfg.tokenizer_model true seed
      else (loaded, block_hashes prompt cfg.block_chars cfg.hash_cutoff_blocks seed, char)

  unfoldable pub choose :
      Router
      → Option (Text × Tokenizer)
      → Text
      → List Text
      → Strategy
      → ℕ
      → Router × Option (Text × Tokenizer) × Option RouteResult
  choose r loaded prompt backends strategy seed =
      let (loaded', hashes, mode) = hashes_for r.cfg loaded prompt seed in
      let tokens = length hashes * r.cfg.block_tokens in
      let (r', chosen) = choose_by r strategy hashes tokens backends in
      (
        r',
        loaded',
        map_option
            (λ c. record {
              backend_id = c.0;
              hashes = hashes;
              tokens = tokens;
              match_blocks = c.1;
              hash_mode = mode;
            })
            chosen,
      )
