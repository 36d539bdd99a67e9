-- ===== src/Disagg.antt =====
-- gateway/disagg/pools.py, kv_transfer.py and router.py: the pools by phase, and the choice of a
-- prefill and a decode backend. Times are in 10^-9 ms; `link` is the number of bytes that the
-- link moves in 1 ms.
mod Choice
mod Tests
use llm_inference.Base.{
  ℕ, ◌+◌, ◌-◌, ◌*◌, ◌/◌, Bool, true, false, not, ◌&&◌, ◌||◌, Option, none, some, List, [], ◌∷◌,
  ◌==◌, if◌then◌else◌, leb, ltb, filter,
}
use llm_inference.Base.Text.{Text, text_eq, text, strip, lower, split, partition}
use llm_inference.Base.Dict
use llm_inference.Base.Dict.{Dict}
use llm_inference.Load.{LoadTracker, inflight_of, kv_of, one}
use llm_inference.Affinity.{cheapest, best_of, or_all}

-- A set of roles; one that is empty counts as absent.
pub record Roles : Type 0 where
  pub prefill : Bool
  pub decode : Bool

abbrev pub both : Roles
both = record { prefill = true; decode = true }

-- `{r.strip().lower() for r in roles} & _VALID_ROLES`
unfoldable pub role_set : List Text → Roles
role_set [] = record { prefill = false; decode = false }
role_set (r ∷ rs) =
    let rest = role_set rs in
    record {
      prefill = lower (strip r) == text "prefill" || rest.prefill;
      decode = lower (strip r) == text "decode" || rest.decode;
    }

abbrev is_blank : Text → Bool
is_blank [] = true
is_blank (c ∷ s) = false

-- One segment "b0:prefill,decode", stripped; a malformed one is dropped.
unfoldable pub add_segment : Text → Dict Text Roles → Dict Text Roles
unfolding role_set
add_segment seg out =
    let (bid, found, roles) = partition b':' seg in
    let set = role_set (split b',' roles) in
    if found && not (is_blank (strip bid)) && (set.prefill || set.decode)
    then Dict.set (strip bid) set out
    else out

unfoldable pub add_segments : List Text → Dict Text Roles → Dict Text Roles
add_segments [] out = out
add_segments (seg ∷ segs) out = add_segments segs (add_segment (strip seg) out)

unfoldable pub parse_pool_config : Text → Dict Text Roles
parse_pool_config [] = []
parse_pool_config (c ∷ spec) = add_segments (split b';' (c ∷ spec)) []

abbrev pub PoolRegistry : Type 0
PoolRegistry = Dict Text Roles

unfoldable pub registry_from : List Text → Dict Text Roles → PoolRegistry → PoolRegistry
registry_from [] roles acc = acc
registry_from (bid ∷ ids) roles acc =
    registry_from ids roles (Dict.set bid (Dict.get_or bid both roles) acc)

-- The constructor; a backend without a role serves both phases.
unfoldable pub registry_of : List Text → Dict Text Roles → PoolRegistry
unfolding registry_from
registry_of ids roles = registry_from ids roles []

unfoldable pub pool_of : (Roles → Bool) → PoolRegistry → List Text
pool_of p [] = []
pool_of p ((b, r) ∷ d) = let rest = pool_of p d in if p r then b ∷ rest else rest

abbrev pub prefill_pool : PoolRegistry → List Text
prefill_pool = pool_of (λ r. r.prefill)

abbrev pub decode_pool : PoolRegistry → List Text
decode_pool = pool_of (λ r. r.decode)

abbrev pub colocatable : PoolRegistry → List Text
colocatable = pool_of (λ r. r.prefill && r.decode)

pub record DisaggConfig : Type 0 where
  pub prefill_ms_per_token : ℕ
  pub decode_ms_per_token : ℕ
  pub prefill_service_ms : ℕ
  pub decode_service_ms : ℕ
  pub block_tokens : ℕ
  pub kv_bytes_per_token : ℕ
  pub link : ℕ
  pub max_inflight : ℕ
  pub kv_pressure_cutoff : ℕ
  pub disagg_margin_ms : ℕ

-- A division by 0 gives 0, as the guard on the link does.
unfoldable pub kv_transfer_ms : ℕ → ℕ → ℕ → ℕ
kv_transfer_ms num_tokens kv_bytes_per_token link =
    if leb num_tokens 0 || leb link 0 then 0 else (num_tokens * kv_bytes_per_token * one) / link

-- What a decision is made from.
pub record Request : Type 0 where
  pub prompt_tokens : ℕ
  pub output_tokens : ℕ
  pub prefill_match : Dict Text ℕ

unfoldable pub prefill_ms : Request → LoadTracker → DisaggConfig → Text → ℕ
prefill_ms q load cfg b =
    cfg.prefill_ms_per_token
      * (q.prompt_tokens - Dict.get_or b 0 q.prefill_match * cfg.block_tokens)
    + inflight_of load b * cfg.prefill_service_ms

unfoldable pub decode_ms : Request → LoadTracker → DisaggConfig → Text → ℕ
decode_ms q load cfg b =
    cfg.decode_ms_per_token * q.output_tokens + inflight_of load b * cfg.decode_service_ms

abbrev pub is_eligible : LoadTracker → DisaggConfig → Text → Bool
is_eligible load cfg b =
    leb (inflight_of load b) cfg.max_inflight && leb (kv_of load b) cfg.kv_pressure_cutoff

-- The whole pool, if every backend of it is saturated.
unfoldable pub candidates : List Text → LoadTracker → DisaggConfig → List Text
candidates pool load cfg = or_all (filter (is_eligible load cfg) pool) pool

-- The text of the reason is left out.
pub record DisaggDecision : Type 0 where
  pub prefill_backend : Text
  pub decode_backend : Text
  pub disaggregated : Bool
  pub est_prefill_ms : ℕ
  pub est_decode_ms : ℕ
  pub est_handoff_ms : ℕ
  pub est_total_ms : ℕ

-- The decision for a prefill and a decode backend and the handoff between them.
unfoldable pub decision : Request → LoadTracker → DisaggConfig → ℕ → Text → Text → DisaggDecision
decision q load cfg handoff pf dc = record {
  prefill_backend = pf;
  decode_backend = dc;
  disaggregated = not (pf == dc);
  est_prefill_ms = prefill_ms q load cfg pf;
  est_decode_ms = decode_ms q load cfg dc;
  est_handoff_ms = handoff;
  est_total_ms = prefill_ms q load cfg pf + handoff + decode_ms q load cfg dc;
}

abbrev pub colocated_ms : Request → LoadTracker → DisaggConfig → Text → ℕ
colocated_ms q load cfg b = prefill_ms q load cfg b + decode_ms q load cfg b

-- The last part of the choice: the best pair against the best backend that serves both phases.
unfoldable pub decide :
    Request → LoadTracker → DisaggConfig → Text → Text → Option Text → DisaggDecision
unfolding decision
decide q load cfg pb db coloc =
    let handoff =
      if pb == db then 0 else kv_transfer_ms q.prompt_tokens cfg.kv_bytes_per_token cfg.link in
    let total = prefill_ms q load cfg pb + handoff + decode_ms q load cfg db in
    elim coloc [
      | none ↦ decision q load cfg handoff pb db
      | some node ↦
          if pb == db
          then decision q load cfg 0 node node
          else if ltb (total + cfg.disagg_margin_ms) (colocated_ms q load cfg node)
          then decision q load cfg handoff pb db
          else decision q load cfg 0 node node
    ]

-- The candidates that serve both phases; none if no backend does.
abbrev pub coloc_pool : PoolRegistry → LoadTracker → DisaggConfig → List Text
coloc_pool pools load cfg = candidates (colocatable pools) load cfg

-- `none`: no backend can serve the request. An empty pool is replaced by the other one.
unfoldable pub choose_disaggregated :
    Request → PoolRegistry → LoadTracker → DisaggConfig → Option DisaggDecision
choose_disaggregated q pools load cfg =
    let ps = candidates (prefill_pool pools) load cfg in
    let ds = candidates (decode_pool pools) load cfg in
    let coloc = best_of (colocated_ms q load cfg) (coloc_pool pools load cfg) in
    elim (best_of (prefill_ms q load cfg) (or_all ps ds)) [
      | none ↦ none
      | some pb ↦ elim (best_of (decode_ms q load cfg) (or_all ds ps)) [
        | none ↦ none
        | some db ↦ some (decide q load cfg pb db coloc)
      ]
    ]
