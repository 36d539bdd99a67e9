-- ===== src/Session/Laws.antt =====
-- gateway/session_affinity.py: the pins that the operations leave.
use llm_inference.Base.{
  ℕ, ◌+◌, ◌≤◌, ◌<◌, ◌≡◌, ◌≢◌, refl, Bool, true, false, Option, none, some, List, [], ◌∷◌, arith,
  ◌==◌, eq_iff, if◌then◌else◌, contains, length, inl, inr, Option-cases, inl, inr, Option-cases,
}
use llm_inference.Base.Text.{Text, text_eq}
use llm_inference.Base.Dict
use llm_inference.Base.Dict.{
  Dict, IsDict, get-set, get-remove, get-move_to_end, remove-IsDict, move_to_end-IsDict,
  length-remove-le, length-move_to_end,
}
use llm_inference.Base.Lru.{
  touch, touch-IsDict, evict-IsDict, length-evict-le, get-evict-touch, get-touch, get-evict,
}
use llm_inference.Session.{
  Pin, SessionAffinity, init, is_blank, pick, remember, sessions_of, remove_all, forget_backend,
}

pub record IsValid (t : SessionAffinity) : Type 0 where
  pub positive : 0 < t.capacity
  pub bounded : length t.by_session ≤ t.capacity
  pub distinct : IsDict t.by_session

pub init-IsValid : (capacity ttl : ℕ) → IsValid (init capacity ttl)
unfolding init
init-IsValid capacity ttl = record { positive = omega arith; bounded = omega arith; distinct = tt }

pub remember-IsValid :
    (t : SessionAffinity) (sid : Option Text) (backend : Text) (now : ℕ)
    → IsValid t
    → IsValid (remember t sid backend now)
unfolding remember
remember-IsValid t none backend now h = h
remember-IsValid t (some []) backend now h = h
remember-IsValid t (some (c ∷ s)) backend now h = record {
  positive = h.positive;
  bounded = length-evict-le t.capacity _;
  distinct = evict-IsDict t.capacity _ (touch-IsDict (c ∷ s) _ t.by_session h.distinct);
}

-- After a turn of a session, the session is pinned to the backend that served it: a later request
-- of the session within the time to live, at which that backend is a candidate, is given it.
pub pick-remember :
    (t : SessionAffinity) (sid : Option Text) (backend : Text) (candidates : List Text)
    (served now : ℕ)
    → IsValid t
    → is_blank sid ≡ false
    → contains backend candidates ≡ true
    → now ≤ served + t.ttl
    → (pick (remember t sid backend served) sid candidates now).1 ≡ some backend
unfolding pick remember
pick-remember t none backend candidates served now h blank eligible fresh = ground arith
pick-remember t (some []) backend candidates served now h blank eligible fresh = ground arith
pick-remember t (some (c ∷ s)) backend candidates served now h blank eligible fresh = ground (
  arith,
  get-evict-touch t.capacity (c ∷ s) (record { backend = backend; last = served }) t.by_session
      h.positive,
)

-- A backend that `pick` returns is a candidate, and the table held a pin of the session to it that
-- was not older than the time to live.
pub pick_sound :
    (t : SessionAffinity) (sid : Option Text) (candidates : List Text) (now : ℕ) (backend : Text)
    → (pick t sid candidates now).1 ≡ some backend
    → (s : Text) × (last : ℕ) × (sid ≡ some s)
      × (contains backend candidates ≡ true)
      × (Dict.get s t.by_session ≡ some (record { backend = backend; last = last }))
      × (now ≤ last + t.ttl)
unfolding pick
pick_sound t none candidates now backend h = ground arith
pick_sound t (some []) candidates now backend h = ground arith
pick_sound t (some (c ∷ s)) candidates now backend h =
    elim (Option-cases (Dict.get (c ∷ s) t.by_session)) [
      | inl absent ↦ ground arith
      | inr (pin, found) ↦ (
        c ∷ s,
        pin.last,
        refl,
        ground arith,
        ground (arith, eq_iff pin.backend backend),
        ground arith,
      )
    ]

-- `pick` keeps the table valid.
pub pick-IsValid :
    (t : SessionAffinity) (sid : Option Text) (candidates : List Text) (now : ℕ)
    → IsValid t
    → IsValid (pick t sid candidates now).0
unfolding pick
pick-IsValid t none candidates now h = h
pick-IsValid t (some []) candidates now h = h
pick-IsValid t (some (c ∷ s)) candidates now h =
    elim (Option-cases (Dict.get (c ∷ s) t.by_session)) [
      | inl absent ↦ rw (absent, pick) h
      | inr (pin, found) ↦ ground (
        arith,
        length-remove-le (c ∷ s) t.by_session,
        length-move_to_end (c ∷ s) t.by_session,
        remove-IsDict (c ∷ s) t.by_session h.distinct,
        move_to_end-IsDict (c ∷ s) t.by_session h.distinct,
      )
    ]

get-remove_all :
    (s : Text) (gone : List Text) (d : Dict Text Pin)
    → Dict.get s (remove_all gone d) ≡ (if contains s gone then none else Dict.get s d)
unfolding remove_all contains
get-remove_all s [] d = refl
get-remove_all s (g ∷ gone) d =
    ground (arith, get-remove_all s gone (Dict.remove g d), get-remove g s d)

abbrev pub pinned_to : Text → Option Pin → Bool
pinned_to backend none = false
pinned_to backend (some pin) = pin.backend == backend

sessions_of_absent :
    (s backend : Text) (d : Dict Text Pin)
    → Dict.get s d ≡ none
    → contains s (sessions_of backend d) ≡ false
unfolding sessions_of contains Dict.get
sessions_of_absent s backend [] h = refl
sessions_of_absent s backend ((j, pin) ∷ d) h = ground (arith, sessions_of_absent s backend d)

contains-sessions_of :
    (s backend : Text) (d : Dict Text Pin)
    → IsDict d
    → contains s (sessions_of backend d) ≡ pinned_to backend (Dict.get s d)
unfolding sessions_of contains Dict.get
contains-sessions_of s backend [] h = refl
contains-sessions_of s backend ((j, pin) ∷ d) h =
    ground (arith, eq_iff j s, sessions_of_absent s backend d, contains-sessions_of s backend d h.1)

-- Forgetting a backend removes exactly the pins to it: in a valid table, a session that was pinned
-- to it has no pin afterwards, and every other session has the pin that it had.
pub get-forget_backend :
    (t : SessionAffinity) (backend s : Text)
    → IsValid t
    → Dict.get s (forget_backend t backend).0.by_session
      ≡ (if pinned_to backend (Dict.get s t.by_session) then none else Dict.get s t.by_session)
unfolding forget_backend
get-forget_backend t backend s h = ground (
  arith,
  get-remove_all s (sessions_of backend t.by_session) t.by_session,
  contains-sessions_of s backend t.by_session h.distinct,
)

-- In a valid table a turn of one session changes no other session's pin: a pin that another session
-- has afterwards is the one that it had, since old pins can only be pushed out.
pub get-remember_ne :
    (t : SessionAffinity) (sid s : Text) (backend : Text) (now : ℕ) (pin : Pin)
    → IsValid t
    → sid ≢ s
    → Dict.get s (remember t (some sid) backend now).by_session ≡ some pin
    → Dict.get s t.by_session ≡ some pin
unfolding remember
get-remember_ne t [] s backend now pin h ne found = found
get-remember_ne t (c ∷ r) s backend now pin h ne found =
    let new : Pin = record { backend = backend; last = now } in
    ground (
      arith,
      get-evict t.capacity s (touch (c ∷ r) new t.by_session) pin
          (touch-IsDict (c ∷ r) new t.by_session h.distinct),
      get-touch (c ∷ r) s new t.by_session,
      eq_iff (c ∷ r) s,
    )
