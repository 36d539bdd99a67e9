-- ===== src/Session.antt =====
-- gateway/session_affinity.py: the table that pins a session to the backend of its last turn.
-- Times are non-negative and in one unit: `now - last > ttl` is `last + ttl < now`.
pub mod Laws
mod Tests
use llm_inference.Base.{
  ℕ, suc, ◌+◌, max, Bool, true, false, Option, none, some, List, [], ◌∷◌, ltb, ◌==◌, if◌then◌else◌,
  contains, length,
}
use llm_inference.Base.Text.{Text, text_eq, strip}
use llm_inference.Base.Dict
use llm_inference.Base.Dict.{Dict}
use llm_inference.Base.Lru.{evict, touch}

pub record Pin : Type 0 where
  pub backend : Text
  pub last : ℕ

pub record SessionAffinity : Type 0 where
  pub capacity : ℕ
  pub ttl : ℕ
  pub by_session : Dict Text Pin

unfoldable pub init : ℕ → ℕ → SessionAffinity
init capacity ttl = record { capacity = max 1 capacity; ttl = ttl; by_session = [] }

-- `if not session_id`: the id is absent or empty.
abbrev pub is_blank : Option Text → Bool
is_blank none = true
is_blank (some []) = true
is_blank (some (c ∷ s)) = false

pick_pin : SessionAffinity → Text → List Text → ℕ → Option Pin → SessionAffinity × Option Text
pick_pin t sid candidates now none = (t, none)
pick_pin t sid candidates now (some pin) =
    if ltb (pin.last + t.ttl) now
    then (record t { by_session = Dict.remove sid t.by_session }, none)
    else if contains pin.backend candidates
    then (record t { by_session = Dict.move_to_end sid t.by_session }, some pin.backend)
    else (t, none)

unfoldable pub pick : SessionAffinity → Option Text → List Text → ℕ → SessionAffinity × Option Text
unfolding pick_pin
pick t none candidates now = (t, none)
pick t (some []) candidates now = (t, none)
pick t (some (c ∷ s)) candidates now =
    pick_pin t (c ∷ s) candidates now (Dict.get (c ∷ s) t.by_session)

unfoldable pub remember : SessionAffinity → Option Text → Text → ℕ → SessionAffinity
remember t none backend now = t
remember t (some []) backend now = t
remember t (some (c ∷ s)) backend now = record t {
  by_session =
      evict t.capacity (touch (c ∷ s) (record { backend = backend; last = now }) t.by_session);
}

-- `[s for s, (b, _) in items if b == backend_id]`
unfoldable pub sessions_of : Text → Dict Text Pin → List Text
sessions_of backend [] = []
sessions_of backend ((s, pin) ∷ d) =
    let rest = sessions_of backend d in if pin.backend == backend then s ∷ rest else rest

unfoldable pub remove_all : List Text → Dict Text Pin → Dict Text Pin
remove_all [] d = d
remove_all (s ∷ gone) d = remove_all gone (Dict.remove s d)

-- Returns the table and the number of sessions that were dropped.
unfoldable pub forget_backend : SessionAffinity → Text → SessionAffinity × ℕ
unfolding sessions_of remove_all
forget_backend t backend =
    let gone = sessions_of backend t.by_session in
    (record t { by_session = remove_all gone t.by_session }, length gone)

-- `str(sid).strip() or None`
abbrev or_none : Text → Option Text
or_none [] = none
or_none (c ∷ s) = some (c ∷ s)

-- The id in the header, else the id in the body; an empty one counts as absent.
unfoldable pub extract_session_id : Option Text → Option Text → Option Text
extract_session_id header body =
    if is_blank header
    then (if is_blank body then none else elim body [ none ↦ none | some s ↦ or_none (strip s) ])
    else elim header [ none ↦ none | some s ↦ or_none (strip s) ]
