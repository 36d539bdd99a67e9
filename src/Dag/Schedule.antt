-- ===== src/Dag/Schedule.antt =====
-- gateway/dag/scheduler.py: the placement of the nodes of a graph on backends. Times are in 10^-9 ms.
use llm_inference.Base.{
  ℕ, ◌+◌, ◌-◌, ◌*◌, ◌%◌, max, Bool, false, not, Option, none, some, List, [], ◌∷◌, ◌++◌,
  if◌then◌else◌, length, ltb, filter, contains, get_elem?,
}
use llm_inference.Base.Text.{Text, text_eq}
use llm_inference.Base.Dict
use llm_inference.Base.Dict.{Dict}
use llm_inference.Hashing.{block_hashes}
use llm_inference.Radix
use llm_inference.Radix.{RadixTree}
use llm_inference.Load.{LoadTracker, inflight_of}
use llm_inference.Dag.{DagNode, RequestDag, layers}

pub record DagSchedConfig : Type 0 where
  pub backend_cache_blocks : ℕ
  pub block_chars : ℕ
  pub hash_cutoff_blocks : ℕ
  pub block_tokens : ℕ
  pub prefill_ms_per_token : ℕ
  pub service_ms_per_request : ℕ
  pub max_inflight : ℕ
  pub parent_affinity_bonus_ms : ℕ

pub record NodePlacement : Type 0 where
  pub node_id : Text
  pub backend_id : Text
  pub layer : ℕ
  pub match_blocks : ℕ
  pub total_blocks : ℕ
  pub est_ms : ℕ

pub record Schedule : Type 0 where
  pub placements : List NodePlacement
  pub est_makespan_ms : ℕ
  pub cache_hit_blocks : ℕ
  pub total_blocks : ℕ

-- Any other name of a strategy is "locality".
pub data Strategy : Type 0 where
  locality round_robin : Strategy

unfoldable pub initial_busy : Option LoadTracker → DagSchedConfig → Text → ℕ
initial_busy none cfg b = 0
initial_busy (some load) cfg b = inflight_of load b * cfg.service_ms_per_request

unfoldable pub saturated : Option LoadTracker → DagSchedConfig → Text → Bool
saturated none cfg b = false
saturated (some load) cfg b = ltb cfg.max_inflight (inflight_of load b)

abbrev pub or_all : List Text → List Text → List Text
or_all [] backends = backends
or_all (b ∷ bs) backends = b ∷ bs

unfoldable pub eligible : Option LoadTracker → DagSchedConfig → List Text → List Text
eligible load cfg backends = or_all (filter (λ b. not (saturated load cfg b)) backends) backends

-- The state of the loops.
pub record Planning : Type 0 where
  pub tree : RadixTree
  pub placements : List NodePlacement
  pub node_backend : Dict Text Text
  pub hit_blocks : ℕ
  pub total_blocks : ℕ
  pub rr : ℕ
  pub busy : Dict Text ℕ

unfoldable pub work_of : DagSchedConfig → ℕ → ℕ → ℕ
work_of cfg nblocks m_blocks = cfg.prefill_ms_per_token * (nblocks - m_blocks) * cfg.block_tokens

-- `{node_backend[p] for p in node.parents if p in node_backend}`
unfoldable pub parent_backends : Dict Text Text → List Text → List Text
parent_backends placed [] = []
parent_backends placed (p ∷ ps) = elim (Dict.get p placed) [
  | none ↦ parent_backends placed ps
  | some b ↦ b ∷ parent_backends placed ps
]

-- `busy[b] + work` of a backend, and what is subtracted from it
abbrev pub finish_ms : DagSchedConfig → Planning → Dict Text ℕ → ℕ → Text → ℕ
finish_ms cfg s found nblocks b =
    Dict.get_or b 0 s.busy + work_of cfg nblocks (Dict.get_or b 0 found)

abbrev pub bonus_ms : DagSchedConfig → List Text → Text → ℕ
bonus_ms cfg parents b = if contains b parents then cfg.parent_affinity_bonus_ms else 0

-- `finish < chosen_finish`, without negative numbers
abbrev pub is_sooner : DagSchedConfig → Planning → Dict Text ℕ → ℕ → List Text → Text → Text → Bool
is_sooner cfg s found nblocks parents b best =
    ltb (finish_ms cfg s found nblocks b + bonus_ms cfg parents best)
      (finish_ms cfg s found nblocks best + bonus_ms cfg parents b)

-- The loop over the backends after the first one, which is better than none.
unfoldable pub soonest :
    DagSchedConfig → Planning → Dict Text ℕ → ℕ → List Text → Text → List Text → Text
soonest cfg s found nblocks parents best [] = best
soonest cfg s found nblocks parents best (b ∷ bs) =
    soonest cfg s found nblocks parents
      (if is_sooner cfg s found nblocks parents b best then b else best) bs

-- `eligible[rr % len(eligible)]`, which has an element
abbrev pub turn_of : ℕ → Text → List Text → Text
turn_of rr b bs = elim (get_elem? (b ∷ bs) (rr % length (b ∷ bs))) [ none ↦ b | some c ↦ c ]

-- The backend for a node; `none`: there is none to choose from.
unfoldable pub choose :
    DagSchedConfig → Strategy → Planning → Dict Text ℕ → ℕ → DagNode → List Text → Option Text
unfolding soonest parent_backends
choose cfg strategy s found nblocks n [] = none
choose cfg round_robin s found nblocks n (b ∷ bs) = some (turn_of s.rr b bs)
choose cfg locality s found nblocks n (b ∷ bs) =
    some (soonest cfg s found nblocks (parent_backends s.node_backend n.parents) b bs)

abbrev pub next_turn : Strategy → ℕ → ℕ
next_turn round_robin rr = rr + 1
next_turn locality rr = rr

-- What the body of the inner loop does after the choice.
unfoldable pub put :
    DagSchedConfig → Strategy → ℕ → DagNode → List ℕ → Dict Text ℕ → Text → Planning → Planning
unfolding work_of
put cfg strategy layer n hashes found chosen s =
    let nblocks = length hashes in
    let m_blocks = Dict.get_or chosen 0 found in
    let work = work_of cfg nblocks m_blocks in
    record {
      tree = Radix.insert hashes chosen s.tree;
      placements =
          s.placements
          ++ record {
            node_id = n.id;
            backend_id = chosen;
            layer = layer;
            match_blocks = m_blocks;
            total_blocks = nblocks;
            est_ms = work;
          }
            ∷ [];
      node_backend = Dict.set n.id chosen s.node_backend;
      hit_blocks = s.hit_blocks + m_blocks;
      total_blocks = s.total_blocks + nblocks;
      rr = next_turn strategy s.rr;
      busy = Dict.set chosen (Dict.get_or chosen 0 s.busy + work) s.busy;
    }

unfoldable pub place_node :
    DagSchedConfig
    → Strategy
    → ℕ
    → Option LoadTracker
    → List Text
    → DagNode
    → Planning
    → Option Planning
unfolding choose put eligible
place_node cfg strategy layer load backends n s =
    let hashes = block_hashes n.prompt cfg.block_chars cfg.hash_cutoff_blocks 0 in
    let found = Radix.match s.tree hashes in
    elim (choose cfg strategy s found (length hashes) n (eligible load cfg backends)) [
      | none ↦ none
      | some chosen ↦ some (put cfg strategy layer n hashes found chosen s)
    ]

-- The nodes of a layer; `none` where an id is not a node.
unfoldable pub place_layer :
    DagSchedConfig
    → Strategy
    → ℕ
    → Option LoadTracker
    → List Text
    → RequestDag
    → List Text
    → Planning
    → Option Planning
unfolding place_node
place_layer cfg strategy layer load backends d [] s = some s
place_layer cfg strategy layer load backends d (nid ∷ nids) s = elim (Dict.get nid d) [
  | none ↦ none
  | some n ↦ elim (place_node cfg strategy layer load backends n s) [
    | none ↦ none
    | some s' ↦ place_layer cfg strategy layer load backends d nids s'
  ]
]

-- `{b: _initial_busy(load, b, cfg) for b in backends}`
unfoldable pub fresh_busy : Option LoadTracker → DagSchedConfig → List Text → Dict Text ℕ
unfolding initial_busy
fresh_busy load cfg [] = []
fresh_busy load cfg (b ∷ bs) = Dict.set b (initial_busy load cfg b) (fresh_busy load cfg bs)

unfoldable pub largest : List ℕ → ℕ
largest [] = 0
largest (n ∷ ns) = max n (largest ns)

-- The loop over the layers, with the makespan so far.
unfoldable pub place_layers :
    DagSchedConfig
    → Strategy
    → ℕ
    → Option LoadTracker
    → List Text
    → RequestDag
    → List (List Text)
    → ℕ
    → Planning
    → Option (Planning × ℕ)
unfolding place_layer fresh_busy largest
place_layers cfg strategy layer load backends d [] makespan s = some (s, makespan)
place_layers cfg strategy layer load backends d (l ∷ ls) makespan s =
    elim (place_layer cfg strategy layer load backends d l
      (record s { busy = fresh_busy load cfg backends })) [
        | none ↦ none
        | some s' ↦
            place_layers cfg strategy (layer + 1) load backends d ls
              (makespan + largest (Dict.values s'.busy)) s'
      ]

abbrev pub start : DagSchedConfig → Planning
start cfg = record {
  tree = Radix.init cfg.backend_cache_blocks;
  placements = [];
  node_backend = [];
  hit_blocks = 0;
  total_blocks = 0;
  rr = 0;
  busy = [];
}

abbrev pub schedule_of : Planning × ℕ → Schedule
schedule_of (s, makespan) = record {
  placements = s.placements;
  est_makespan_ms = makespan;
  cache_hit_blocks = s.hit_blocks;
  total_blocks = s.total_blocks;
}

-- The result: no backends, an exception, or a schedule.
pub data Planned : Type 0 where
  no_backends raised : Planned
  planned : Schedule → Planned

unfoldable pub schedule :
    RequestDag → List Text → DagSchedConfig → Option LoadTracker → Strategy → Planned
unfolding place_layers
schedule d [] cfg load strategy = no_backends
schedule d (b ∷ bs) cfg load strategy = elim (layers d) [
  | none ↦ raised
  | some ls ↦ elim (place_layers cfg strategy 0 load (b ∷ bs) d ls 0 (start cfg)) [
    | none ↦ raised
    | some r ↦ planned (schedule_of r)
  ]
]
