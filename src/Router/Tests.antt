-- ===== src/Router/Tests.antt =====
-- Concrete choices of the router.
use llm_inference.Base.{
  ℕ, ◌≡◌, ◌≤◌, refl, Bool, true, false, Option, none, some, List, [], ◌∷◌, arith, contains, All,
}
use llm_inference.Base.Text.{Text, text_eq, text}
use llm_inference.Base.Dict
use llm_inference.Radix
use llm_inference.Router.{
  Config, Router, round_robin, prefix_tree, inflight, is_saturated, choose_by,
}
use llm_inference.Router.Choice.{IsPreferred, prefix_tree_prefers}
use llm_inference.Router.Totality.{choose_by-some, least_of_saturated}

abbrev cfg : Config
cfg = record {
  block_chars = 64;
  block_tokens = 16;
  hash_cutoff_blocks = 512;
  prefill_ms_per_token = 50000000;
  service_ms_per_request = 200000000000;
  kv_pressure_cutoff = 900000000;
  max_inflight = 4;
  hysteresis_ms = 5000000000;
  use_bpe_hashing = false;
  tokenizer_model = text "gpt2";
  ttft_predictor_weight = 500000000;
}

abbrev busy_first : Router
busy_first = record {
  cfg = cfg;
  tree = Radix.init 8;
  load = record {
    inflight = (text "b0", 3) ∷ [];
    inflight_tokens = [];
    kv_usage = (text "b1", 400000000) ∷ [];
  };
  rr = 0;
  predictor = none;
  fleet = none;
}

abbrev cands : List Text
cands = text "b0" ∷ text "b1" ∷ []

chooses_b1 : (choose_by busy_first prefix_tree (7 ∷ []) 16 cands).1 ≡ some (text "b1", 0)
unfolding choose_by llm_inference.Router.choose_among llm_inference.Router.scored_of is_saturated
    Dict.get_or llm_inference.Base.list_beq inflight llm_inference.Router.pick
    llm_inference.Router.good_of llm_inference.Router.est_ttft Radix.match Radix.match_from Dict.get
    Radix.init
chooses_b1 = refl

has_b0 : contains (text "b0") cands ≡ true
unfolding contains llm_inference.Base.list_beq
has_b0 = refl

b0_has_room : is_saturated busy_first (text "b0") ≡ false
unfolding is_saturated Dict.get_or llm_inference.Base.list_beq inflight
b0_has_room = refl

prefix_tree_prefers_example :
    IsPreferred busy_first 16 (Radix.match (Radix.init 8) (7 ∷ [])) cands (text "b1") 0 (text "b0")
prefix_tree_prefers_example =
    prefix_tree_prefers busy_first (7 ∷ []) 16 cands (text "b1") (text "b0") 0 chooses_b1 has_b0
      b0_has_room

choose_by-some_example :
    (c : Text × ℕ) × ((choose_by busy_first round_robin (7 ∷ []) 16 (text "b0" ∷ text "b1" ∷ [])).1
      ≡ some c)
choose_by-some_example =
    choose_by-some busy_first round_robin (7 ∷ []) 16 (text "b0") (text "b1" ∷ [])

abbrev full : Router
full = record {
  cfg = cfg;
  tree = Radix.init 8;
  load = record {
    inflight = (text "b0", 6) ∷ (text "b1", 5) ∷ [];
    inflight_tokens = [];
    kv_usage = [];
  };
  rr = 0;
  predictor = none;
  fleet = none;
}

full_cands : All (λ c. is_saturated full c ≡ true) (text "b0" ∷ text "b1" ∷ [])
unfolding is_saturated Dict.get_or inflight llm_inference.Base.list_beq
full_cands = (refl, (refl, tt))

least_of_saturated_example :
    (c : Text) × ((choose_by full prefix_tree (7 ∷ []) 16 (text "b0" ∷ text "b1" ∷ [])).1
      ≡ some (c, Dict.get_or c 0 (Radix.match (Radix.init 8) (7 ∷ []))))
    × All (λ d. inflight full c ≤ inflight full d) (text "b0" ∷ text "b1" ∷ [])
least_of_saturated_example =
    least_of_saturated full (7 ∷ []) 16 (text "b0") (text "b1" ∷ []) full_cands
      ((λ e. ground arith), ((λ e. ground arith), tt))
