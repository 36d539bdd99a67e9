-- ===== src/Circuit.antt =====
-- gateway/circuit.py: the circuit breaker of every backend. Times are non-negative and in one unit,
-- so that `now - opened >= cooldown` is `opened + cooldown ≤ now`.
pub mod History
mod Tests
use llm_inference.Base.{ℕ, ◌+◌, Bool, true, false, not, Option, none, some, [], leb, if◌then◌else◌}
use llm_inference.Base.Text.{Text, text_eq}
use llm_inference.Base.Dict
use llm_inference.Base.Dict.{Dict}

pub data State : Type 0 where
  closed half_open opened : State

pub record Breaker : Type 0 where
  pub fail_threshold : ℕ
  pub cooldown : ℕ
  pub fails : Dict Text ℕ
  pub opened_at : Dict Text ℕ

unfoldable pub init : ℕ → ℕ → Breaker
init threshold cooldown = record {
  fail_threshold = threshold;
  cooldown = cooldown;
  fails = [];
  opened_at = [];
}

abbrev pub state_since : Option ℕ → ℕ → ℕ → State
state_since none cooldown now = closed
state_since (some t) cooldown now = if leb (t + cooldown) now then half_open else opened

unfoldable pub state : Breaker → Text → ℕ → State
state b id now = state_since (Dict.get id b.opened_at) b.cooldown now

unfoldable pub state_code : State → ℕ
state_code closed = 0
state_code half_open = 1
state_code opened = 2

abbrev pub is_half_open : State → Bool
is_half_open half_open = true
is_half_open closed = false
is_half_open opened = false

abbrev pub is_opened : State → Bool
is_opened opened = true
is_opened closed = false
is_opened half_open = false

unfoldable pub allow : Breaker → Text → ℕ → Bool
unfolding state
allow b id now = not (is_opened (state b id now))

unfoldable pub record_success : Breaker → Text → Breaker
record_success b id = record b {
  fails = Dict.set id 0 b.fails;
  opened_at = Dict.remove id b.opened_at;
}

-- The failed probe of a half-open circuit reopens it; another failure is counted, and opens the
-- circuit from the threshold on.
unfoldable pub record_failure : Breaker → Text → ℕ → Breaker
unfolding state
record_failure b id now =
    let count = Dict.get_or id 0 b.fails + 1 in
    if is_half_open (state b id now)
    then record b {
      fails = Dict.set id b.fail_threshold b.fails;
      opened_at = Dict.set id now b.opened_at;
    }
    else record b {
      fails = Dict.set id count b.fails;
      opened_at = if leb b.fail_threshold count then Dict.set id now b.opened_at else b.opened_at;
    }
