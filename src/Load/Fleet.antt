-- ===== src/Load/Fleet.antt =====
-- gateway/cluster/fleet.py: `FleetLoadView`, the peers' last load snapshots.
use llm_inference.Base.{
  ℕ, ◌+◌, ◌≡◌, Bool, true, false, ◌||◌, Option, none, some, List, [], ◌∷◌, arith, contains, length,
}
use llm_inference.Base.Text.{Text, text_eq}
use llm_inference.Base.Dict
use llm_inference.Base.Dict.{Dict, IsDict, get-set}

pub record LoadEvent : Type 0 where
  pub origin : Text
  pub seq : ℕ
  pub inflight : Dict Text ℕ
  pub unhealthy : List Text

pub record FleetLoadView : Type 0 where
  pub inflight : Dict Text (Dict Text ℕ)
  pub unhealthy : Dict Text (List Text)

abbrev pub init : FleetLoadView
init = record { inflight = []; unhealthy = [] }

unfoldable pub apply : LoadEvent → FleetLoadView → FleetLoadView
apply ev v = record {
  inflight = Dict.set ev.origin ev.inflight v.inflight;
  unhealthy = Dict.set ev.origin ev.unhealthy v.unhealthy;
}

unfoldable pub sum_at : Text → Dict Text (Dict Text ℕ) → ℕ
sum_at b [] = 0
sum_at b ((o, d) ∷ rest) = Dict.get_or b 0 d + sum_at b rest

unfoldable pub peer_inflight : FleetLoadView → Text → ℕ
unfolding sum_at
peer_inflight v b = sum_at b v.inflight

unfoldable pub any_lists : Text → Dict Text (List Text) → Bool
any_lists b [] = false
any_lists b ((o, s) ∷ rest) = contains b s || any_lists b rest

unfoldable pub peer_unhealthy : FleetLoadView → Text → Bool
unfolding any_lists
peer_unhealthy v b = any_lists b v.unhealthy

unfoldable pub peers : FleetLoadView → ℕ
peers v = length v.inflight

-- What one peer contributes.
abbrev pub share : Text → Option (Dict Text ℕ) → ℕ
share b none = 0
share b (some d) = Dict.get_or b 0 d

sum_at-set :
    (b o : Text) (new : Dict Text ℕ) (m : Dict Text (Dict Text ℕ))
    → sum_at b (Dict.set o new m) + share b (Dict.get o m) ≡ sum_at b m + Dict.get_or b 0 new
unfolding sum_at Dict.set Dict.get
sum_at-set b o new [] = ground arith
sum_at-set b o new ((p, d) ∷ m) = ground (arith, sum_at-set b o new m)

-- A new snapshot of a peer replaces its old one in the fleet's load of every backend: nothing is
-- counted twice, and what the other peers reported stays.
pub peer_inflight-apply :
    (b : Text) (ev : LoadEvent) (v : FleetLoadView)
    → peer_inflight (apply ev v) b + share b (Dict.get ev.origin v.inflight)
      ≡ peer_inflight v b + Dict.get_or b 0 ev.inflight
unfolding peer_inflight apply
peer_inflight-apply b ev v = sum_at-set b ev.origin ev.inflight v.inflight

any_lists-set :
    (b o : Text) (new : List Text) (m : Dict Text (List Text))
    → contains b new ≡ true
    → any_lists b (Dict.set o new m) ≡ true
unfolding any_lists Dict.set
any_lists-set b o new [] h = ground arith
any_lists-set b o new ((p, s) ∷ m) h = ground (arith, any_lists-set b o new m h)

-- A backend that a peer reports as shed counts as unhealthy from then on.
pub peer_unhealthy-apply :
    (b : Text) (ev : LoadEvent) (v : FleetLoadView)
    → contains b ev.unhealthy ≡ true
    → peer_unhealthy (apply ev v) b ≡ true
unfolding peer_unhealthy apply
peer_unhealthy-apply b ev v h = any_lists-set b ev.origin ev.unhealthy v.unhealthy h
