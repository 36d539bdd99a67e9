-- ===== src/Lww/Drain.antt =====
-- gateway/cluster/drain_state.py: `DrainState`, a last-writer-wins map of draining flags with a
-- Lamport clock.
pub mod Laws
use llm_inference.Base.{
  ℕ, ◌+◌, Bool, true, false, not, ◌||◌, Option, none, some, List, [], ◌∷◌, ltb, if◌then◌else◌,
  bool_ne,
}
use llm_inference.Base.Text.{Text, text_eq}
use llm_inference.Base.Dict
use llm_inference.Base.Dict.{Dict}
use llm_inference.Lww.Version.{Version, beats}
use llm_inference.Lww.Join.{Op}

pub record DrainState : Type 0 where
  pub s : Dict Text (Version Bool)
  pub clock : ℕ

abbrev pub init : DrainState
init = record { s = []; clock = 0 }

unfoldable pub observe : ℕ → DrainState → DrainState
observe ts st = if ltb st.clock ts then record st { clock = ts } else st

-- Returns the new state and the Lamport timestamp of the operation.
unfoldable pub set_local : Text → Bool → Text → DrainState → DrainState × ℕ
set_local id draining origin st =
    let ts = st.clock + 1 in
    (
      record {
        s = Dict.set id (record { value = draining; ts = ts; origin = origin }) st.s;
        clock = ts;
      },
      ts,
    )

-- `cur is None or cur[0] != draining`
abbrev pub differs : Option (Version Bool) → Bool → Bool
differs none draining = true
differs (some cur) draining = bool_ne cur.value draining

-- Returns the new state and whether it reports a change.
unfoldable pub apply : Text → Version Bool → DrainState → DrainState × Bool
unfolding observe
apply id v st =
    let seen = observe v.ts st in
    let cur = Dict.get id seen.s in
    if beats v cur
    then (record seen { s = Dict.set id v seen.s }, differs cur v.value)
    else (seen, false)

unfoldable pub merge : List (Op Bool) → DrainState → DrainState × Bool
merge [] st = (st, false)
merge ((id, v) ∷ entries) st =
    let one = apply id v st in let rest = merge entries one.0 in (rest.0, one.1 || rest.1)

unfoldable pub drained : Dict Text (Version Bool) → List Text
drained [] = []
drained ((id, v) ∷ s) = let rest = drained s in if v.value then id ∷ rest else rest

abbrev pub digest : DrainState → List (Op Bool)
digest st = st.s
