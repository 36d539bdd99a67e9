-- ===== src/Load.antt =====
-- gateway/load_tracker.py and gateway/cluster/fleet.py: a replica's own in-flight counters and
-- scraped KV usage, and the snapshots of its peers. Fractions are fixed-point: `one` is 1.0.
pub mod Counters
pub mod Fleet
mod Tests
use llm_inference.Base.{ℕ, ◌+◌, ◌-◌, ◌*◌, ◌/◌, max, List, []}
use llm_inference.Base.Text.{Text, text_eq}
use llm_inference.Base.Dict
use llm_inference.Base.Dict.{Dict}

-- 1.0
abbrev pub one : ℕ
one = 1000000000

pub record LoadTracker : Type 0 where
  pub inflight : Dict Text ℕ
  pub inflight_tokens : Dict Text ℕ
  pub kv_usage : Dict Text ℕ

abbrev pub init : LoadTracker
init = record { inflight = []; inflight_tokens = []; kv_usage = [] }

-- Reads of the `defaultdict`s.
abbrev pub inflight_of : LoadTracker → Text → ℕ
inflight_of l b = Dict.get_or b 0 l.inflight

abbrev pub tokens_of : LoadTracker → Text → ℕ
tokens_of l b = Dict.get_or b 0 l.inflight_tokens

abbrev pub kv_of : LoadTracker → Text → ℕ
kv_of l b = Dict.get_or b 0 l.kv_usage

unfoldable pub on_dispatch : Text → ℕ → LoadTracker → LoadTracker
on_dispatch b tokens l = record l {
  inflight = Dict.set b (inflight_of l b + 1) l.inflight;
  inflight_tokens = Dict.set b (tokens_of l b + tokens) l.inflight_tokens;
}

-- `max(0, x - y)` on integers is the truncated subtraction.
unfoldable pub on_complete : Text → ℕ → LoadTracker → LoadTracker
on_complete b tokens l = record l {
  inflight = Dict.set b (inflight_of l b - 1) l.inflight;
  inflight_tokens = Dict.set b (tokens_of l b - tokens) l.inflight_tokens;
}

-- `alpha * kv_usage + (1 - alpha) * prev`
unfoldable pub update_scraped : Text → ℕ → ℕ → LoadTracker → LoadTracker
update_scraped b kv alpha l = record l {
  kv_usage = Dict.set b ((alpha * kv + (one - alpha) * kv_of l b) / one) l.kv_usage;
}
