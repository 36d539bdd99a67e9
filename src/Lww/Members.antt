-- ===== src/Lww/Members.antt =====
-- gateway/cluster/membership_state.py: `MembershipState`, a last-writer-wins map of runtime fleet
-- membership. A removed backend is a tombstone: an entry that is not present.
pub mod Laws
use llm_inference.Base.{
  ℕ, ◌+◌, Bool, true, false, not, ◌||◌, Option, none, some, List, [], ◌∷◌, ltb, if◌then◌else◌,
  bool_ne, ◌==◌,
}
use llm_inference.Base.Text.{Text, text_eq}
use llm_inference.Base.Dict
use llm_inference.Base.Dict.{Dict}
use llm_inference.Lww.Version.{Version, beats}
use llm_inference.Lww.Join.{Op}

pub record Member : Type 0 where
  pub present : Bool
  pub url : Text
  pub model : Text

pub record MembershipState : Type 0 where
  pub s : Dict Text (Version Member)
  pub clock : ℕ

abbrev pub init : MembershipState
init = record { s = []; clock = 0 }

unfoldable pub observe : ℕ → MembershipState → MembershipState
observe ts st = if ltb st.clock ts then record st { clock = ts } else st

unfoldable pub set_local : Text → Member → Text → MembershipState → MembershipState × ℕ
set_local id m origin st =
    let ts = st.clock + 1 in
    (
      record { s = Dict.set id (record { value = m; ts = ts; origin = origin }) st.s; clock = ts },
      ts,
    )

-- `cur is None or cur[0] != present or cur[1] != url`; the model is not compared.
abbrev pub differs : Option (Version Member) → Member → Bool
differs none m = true
differs (some cur) m = bool_ne cur.value.present m.present || not (cur.value.url == m.url)

unfoldable pub apply : Text → Version Member → MembershipState → MembershipState × Bool
unfolding observe
apply id v st =
    let seen = observe v.ts st in
    let cur = Dict.get id seen.s in
    if beats v cur
    then (record seen { s = Dict.set id v seen.s }, differs cur v.value)
    else (seen, false)

unfoldable pub merge : List (Op Member) → MembershipState → MembershipState × Bool
merge [] st = (st, false)
merge ((id, v) ∷ entries) st =
    let one = apply id v st in let rest = merge entries one.0 in (rest.0, one.1 || rest.1)

-- The backends that are present, with URL and model.
unfoldable pub present : Dict Text (Version Member) → List (Text × Text × Text)
present [] = []
present ((id, v) ∷ s) =
    let rest = present s in
    if v.value.present then (id, v.value.url, v.value.model) ∷ rest else rest

unfoldable pub removed : Dict Text (Version Member) → List Text
removed [] = []
removed ((id, v) ∷ s) = let rest = removed s in if v.value.present then rest else id ∷ rest

abbrev pub digest : MembershipState → List (Op Member)
digest st = st.s
