-- ===== src/Tenancy.antt =====
-- gateway/tenancy.py: tenants, token buckets and the rate limiter. Rates, tokens and times are exact
-- non-negative numbers; a time is in the unit in which `refill` is per unit.
pub mod Bucket
pub mod Limits
mod Tests
use llm_inference.Base.{
  ℕ, ◌+◌, ◌-◌, ◌*◌, ◌/◌, min, max, Bool, true, false, not, ◌&&◌, Option, none, some, List, [], ◌∷◌,
  ◌==◌, if◌then◌else◌, leb, ltb, take, drop,
}
use llm_inference.Base.Int.{ℤ, pos, ◌+ℤ◌, ◌-ℤ◌, leb_ℤ}
use llm_inference.Base.Text.{Text, text_eq, text, strip, lower, partition, split}
use llm_inference.Base.Dict
use llm_inference.Base.Dict.{Dict}
use llm_inference.Hashing.{stable_seed}

pub record Tier : Type 0 where
  pub rps : ℕ
  pub tps : ℕ
  pub max_inflight : ℕ

abbrev pub default_tiers : Dict Text Tier
default_tiers =
    (text "gold", record { rps = 50; tps = 100000; max_inflight = 64 })
    ∷ (text "silver", record { rps = 20; tps = 40000; max_inflight = 24 })
    ∷ (text "bronze", record { rps = 5; tps = 10000; max_inflight = 8 })
    ∷ (text "anonymous", record { rps = 2; tps = 4000; max_inflight = 4 })
    ∷ []

pub record Tenant : Type 0 where
  pub id : Text
  pub rps : ℕ
  pub tps : ℕ
  pub max_inflight : ℕ
  pub tier : Text

abbrev pub from_tier : Text → Tier → Text → Tenant
from_tier tenant_id t name = record {
  id = tenant_id;
  rps = t.rps;
  tps = t.tps;
  max_inflight = t.max_inflight;
  tier = name;
}

pub record TenantRegistry : Type 0 where
  pub by_key : Dict Text Tenant
  pub anon : Tenant

abbrev pub or_else : Text → Text → Text
or_else [] other = other
or_else (c ∷ s) other = c ∷ s

abbrev pub known_tier : Dict Text Tier → Text → Text
known_tier tiers name = if Dict.has name tiers then name else text "bronze"

-- One pair "key=id:tier", stripped. `none`: the tiers lack "bronze" (KeyError).
unfoldable pub add_pair : Dict Text Tier → Dict Text Tenant → Text → Option (Dict Text Tenant)
add_pair tiers d [] = some d
add_pair tiers d (c ∷ pair) =
    let (key, found, rest) = partition b'=' (c ∷ pair) in
    let (tid, colon, tier_name) = partition b':' rest in
    let name = known_tier tiers (or_else (strip tier_name) (text "bronze")) in
    elim (Dict.get name tiers) [
      | none ↦ none
      | some t ↦ some (Dict.set (strip key) (from_tier (or_else (strip tid) (strip key)) t name) d)
    ]

unfoldable pub add_pairs : Dict Text Tier → Dict Text Tenant → List Text → Option (Dict Text Tenant)
add_pairs tiers d [] = some d
add_pairs tiers d (pair ∷ pairs) = elim (add_pair tiers d (strip pair)) [
  | none ↦ none
  | some d' ↦ add_pairs tiers d' pairs
]

-- The registry of a specification "key=id:tier,…" over a table of tiers.
unfoldable pub registry_of : Text → Dict Text Tier → Option TenantRegistry
registry_of spec tiers = elim (add_pairs tiers [] (split b',' spec)) [
  | none ↦ none
  | some d ↦ elim (Dict.get (text "anonymous") tiers) [
    | none ↦ none
    | some t ↦
        some (record { by_key = d; anon = from_tier (text "anonymous") t (text "anonymous") })
  ]
]

-- `resolve`, given the Authorization header (empty where there is none).
unfoldable pub resolve : TenantRegistry → Text → Tenant
resolve r auth =
    if lower (take 7 auth) == text "bearer "
    then elim (Dict.get (strip (drop 7 auth)) r.by_key) [ none ↦ r.anon | some t ↦ t ]
    else r.anon

-- The tokens may go below 0 by an extra debit.
pub record TokenBucket : Type 0 where
  pub capacity : ℕ
  pub refill : ℕ
  pub tokens : ℤ
  pub ts : ℕ

abbrev pub new_bucket : ℕ → ℕ → TokenBucket
new_bucket capacity refill = record {
  capacity = capacity;
  refill = refill;
  tokens = pos capacity;
  ts = 0;
}

abbrev pub min_ℤ : ℤ → ℤ → ℤ
min_ℤ a b = if leb_ℤ a b then a else b

unfoldable pub replenish : ℕ → TokenBucket → TokenBucket
replenish now b =
    if ltb b.ts now
    then record b {
      tokens = min_ℤ (pos b.capacity) (b.tokens +ℤ pos ((now - b.ts) * b.refill));
      ts = now;
    }
    else b

-- `n` may be negative: `max_tokens` of a request is not checked.
unfoldable pub try_consume : ℤ → ℕ → TokenBucket → TokenBucket × Bool
unfolding replenish
try_consume n now b =
    let b' = replenish now b in
    if leb_ℤ n b'.tokens then (record b' { tokens = b'.tokens -ℤ n }, true) else (b', false)

-- `delta` is positive for a refund and negative for a debit.
unfoldable pub adjust : ℤ → TokenBucket → TokenBucket
adjust delta b = record b { tokens = min_ℤ (pos b.capacity) (b.tokens +ℤ delta) }

-- What `deficit_seconds` returns: the missing tokens over the refill rate, or infinity.
pub data Wait : Type 0 where
  seconds : ℤ → ℕ → Wait
  infinite : Wait

unfoldable pub deficit_seconds : ℤ → ℕ → TokenBucket → TokenBucket × Wait
unfolding replenish
deficit_seconds n now b =
    let b' = replenish now b in
    (
      b',
      if leb_ℤ n b'.tokens
          then seconds (pos 0) 1
          else if leb b'.refill 0
          then infinite
          else seconds (n -ℤ b'.tokens) b'.refill,
    )

pub data Reason : Type 0 where
  by_rps by_tps by_inflight : Reason

pub record Admission : Type 0 where
  pub allowed : Bool
  pub reason : Option Reason
  pub retry_after : Wait
  pub remaining_rps : ℤ
  pub remaining_tps : ℤ

pub record RateLimiter : Type 0 where
  pub rps : Dict Text TokenBucket
  pub tps : Dict Text TokenBucket
  pub inflight : Dict Text ℕ

abbrev pub new_limiter : RateLimiter
new_limiter = record { rps = []; tps = []; inflight = [] }

abbrev pub inflight_of : RateLimiter → Tenant → ℕ
inflight_of l t = Dict.get_or t.id 0 l.inflight

-- The tenant's buckets, which are made (both at once, so that the tables have the same keys) on first use; both are in the tables afterwards.
abbrev pub rps_of : RateLimiter → Tenant → TokenBucket
rps_of l t = Dict.get_or t.id (new_bucket (max 1 t.rps) t.rps) l.rps

abbrev pub tps_of : RateLimiter → Tenant → TokenBucket
tps_of l t = Dict.get_or t.id (new_bucket t.tps t.tps) l.tps

-- The limiter with these buckets of the tenant.
unfoldable pub with_buckets : Tenant → TokenBucket → TokenBucket → RateLimiter → RateLimiter
with_buckets t rps_b tps_b l = record l {
  rps = Dict.set t.id rps_b l.rps;
  tps = Dict.set t.id tps_b l.tps;
}

abbrev pub refused : Reason → Wait → TokenBucket → TokenBucket → Admission
refused why wait rps_b tps_b = record {
  allowed = false;
  reason = some why;
  retry_after = wait;
  remaining_rps = rps_b.tokens;
  remaining_tps = tps_b.tokens;
}

-- The second half of `admit`, where the TPS bucket has granted the tokens: the RPS bucket is asked,
-- and if it refuses, the tokens are given back.
unfoldable pub admit_rps :
    Tenant → ℤ → ℕ → TokenBucket → TokenBucket → RateLimiter → RateLimiter × Admission
unfolding with_buckets try_consume deficit_seconds adjust
admit_rps t cost now rps_b tps_1 l =
    let (rps_1, has_rps) = try_consume (pos 1) now rps_b in
    let tps_2 = adjust cost tps_1 in
    let (rps_2, wait) = deficit_seconds (pos 1) now rps_1 in
    if not has_rps then (with_buckets t rps_2 tps_2 l, refused by_rps wait rps_2 tps_2) else (
      record (with_buckets t rps_1 tps_1 l) {
        inflight = Dict.set t.id (inflight_of l t + 1) l.inflight;
      },
      record {
        allowed = true;
        reason = none;
        retry_after = seconds (pos 0) 1;
        remaining_rps = rps_1.tokens;
        remaining_tps = tps_1.tokens;
      },
    )

-- `now` is the time of all the steps of one call.
unfoldable pub admit : Tenant → ℤ → ℕ → RateLimiter → RateLimiter × Admission
unfolding admit_rps
admit t cost now l =
    let rps_b = rps_of l t in
    let tps_b = tps_of l t in
    let (tps_1, has_tps) = try_consume cost now tps_b in
    let (tps_2, wait) = deficit_seconds cost now tps_1 in
    if leb t.max_inflight (inflight_of l t)
    then (with_buckets t rps_b tps_b l, refused by_inflight (seconds (pos 1) 1) rps_b tps_b)
    else if not has_tps
    then (with_buckets t rps_b tps_2 l, refused by_tps wait rps_b tps_2)
    else admit_rps t cost now rps_b tps_1 l

unfoldable pub release : Tenant → ℤ → ℕ → RateLimiter → RateLimiter
release t reserved_output actual_output l =
    let tps_b = adjust (reserved_output -ℤ pos actual_output) (tps_of l t) in
    record (with_buckets t (rps_of l t) tps_b l) {
      inflight = Dict.set t.id (inflight_of l t - 1) l.inflight;
    }

unfoldable pub tenant_seed : Text → ℕ
tenant_seed tenant_id = stable_seed tenant_id
