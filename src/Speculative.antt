-- ===== src/Speculative.antt =====
-- gateway/extensions/speculative.py: the candidates of a speculative dispatch. The race between them
-- is network input and output.
mod Ranking
use llm_inference.Base.{
  ℕ, ◌*◌, max, Bool, true, false, ◌&&◌, ◌||◌, Option, none, some, List, [], ◌∷◌, map, ◌==◌,
  if◌then◌else◌, ltb, take, length, nat_eq,
}
use llm_inference.Base.Text.{Text, text_eq, text_ltb}
use llm_inference.Base.Dict
use llm_inference.Base.Dict.{Dict}
use llm_inference.Hashing.Bpe.{Mode}
use llm_inference.Load.{inflight_of, kv_of}
use llm_inference.Radix
use llm_inference.Router.{Router, Scored, est_ttft, hashes_for}

pub record TopKResult : Type 0 where
  pub backend_ids : List Text
  pub match_blocks : Dict Text ℕ
  pub hashes : List ℕ
  pub tokens : ℕ
  pub hash_mode : Mode

-- The guardrail, which reads the load of this replica only.
unfoldable pub is_over : Router → Text → Bool
is_over r b =
    ltb r.cfg.kv_pressure_cutoff (kv_of r.load b) || ltb r.cfg.max_inflight (inflight_of r.load b)

unfoldable pub scored_of : Router → ℕ → Dict Text ℕ → List Text → List Scored
scored_of r tokens found [] = []
scored_of r tokens found (b ∷ bs) =
    let rest = scored_of r tokens found bs in
    if is_over r b
    then rest
    else record {
      ttft = est_ttft r tokens (Dict.get_or b 0 found) b;
      backend = b;
      blocks = Dict.get_or b 0 found;
    }
      ∷ rest

-- `sort(key=ttft)`, which keeps the order of equal estimates: an insertion from the end.
unfoldable pub insert : Scored → List Scored → List Scored
insert s [] = s ∷ []
insert s (t ∷ ts) = let rest = insert s ts in if ltb t.ttft s.ttft then t ∷ rest else s ∷ t ∷ ts

unfoldable pub sort : List Scored → List Scored
sort [] = []
sort (s ∷ ss) = insert s (sort ss)

-- `(inflight, b)` as a tuple.
abbrev pub less : Router → Text → Text → Bool
less r a b =
    ltb (inflight_of r.load a) (inflight_of r.load b)
    || (inflight_of r.load a == inflight_of r.load b && text_ltb a b)

-- The first of `sorted(saturated)`, after the best one so far.
unfoldable pub least_saturated : Router → Option Text → List Text → Option Text
least_saturated r best [] = best
least_saturated r none (b ∷ bs) = least_saturated r (if is_over r b then some b else none) bs
least_saturated r (some a) (b ∷ bs) =
    least_saturated r (if is_over r b && less r b a then some b else some a) bs

abbrev single : Option Text → List Text → List Text
single none backends = take 1 backends
single (some b) backends = b ∷ []

unfoldable pub chosen_of : Router → ℕ → ℕ → Dict Text ℕ → List Text → List Text
chosen_of r k tokens found backends = elim (sort (scored_of r tokens found backends)) [
  | [] ↦ single (least_saturated r none backends) backends
  | s ∷ ss ↦ map (λ c. c.backend) (take (max 1 k) (s ∷ ss))
]

unfoldable pub blocks_of : Dict Text ℕ → List Text → Dict Text ℕ
blocks_of found [] = []
blocks_of found (b ∷ bs) = (b, Dict.get_or b 0 found) ∷ blocks_of found bs

module _ {Tokenizer : Type 0} (from_pretrained : Text → Option Tokenizer)
    (encode_ids : Tokenizer → Text → List ℕ) where
  unfoldable pub top_k_backends :
      Router
      → Option (Text × Tokenizer)
      → Text
      → List Text
      → ℕ
      → ℕ
      → Option (Text × Tokenizer) × TopKResult
  top_k_backends r loaded prompt backends k seed =
      let (loaded', hashes, mode) =
        hashes_for from_pretrained encode_ids r.cfg loaded prompt seed in
      let tokens = length hashes * r.cfg.block_tokens in
      let found = Radix.match r.tree hashes in
      let chosen = chosen_of r k tokens found backends in
      (
        loaded',
        record {
          backend_ids = chosen;
          match_blocks = blocks_of found chosen;
          hashes = hashes;
          tokens = tokens;
          hash_mode = mode;
        },
      )
