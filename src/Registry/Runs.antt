-- ===== src/Registry/Runs.antt =====
-- gateway/backends.py: the registry after any sequence of calls, described by the history of each backend.
use llm_inference.Base.{
  ◌≡◌, refl, ◌∙◌, ap, Bool, true, false, not, ◌&&◌, Option, none, some, List, [], ◌∷◌, ◌==◌, eq_iff,
  if◌then◌else◌, contains, arith, inl, inr, Bool-cases, Option-cases,
}
use llm_inference.Base.Text.{Text, text_eq}
use llm_inference.Base.Dict
use llm_inference.Base.Dict.{Dict, get-set, get-remove}
use llm_inference.Registry.{
  Backend, BackendRegistry, new_backend, model_or, add, remove, set_health, set_draining, ids_for,
}
use llm_inference.Registry.Laws.{
  IsValid, is_routable_at, contains-ids_for, add-IsValid, remove-IsValid, set_health-IsValid,
  set_draining-IsValid,
}

-- A call of one of the methods that change the registry.
pub data Call : Type 0 where
  added : Text → Text → Option Text → Call
  removed : Text → Call
  health : Text → Bool → Call
  draining : Text → Bool → Call

unfoldable pub call : Call → BackendRegistry → BackendRegistry
call (added id url model) r = (add id url model r).0
call (removed id) r = (remove id r).0
call (health id h) r = set_health id h r
call (draining id d) r = (set_draining id d r).0

-- The calls of a history, of which the newest is the first, on a registry without backends.
unfoldable pub run : Text → List Call → BackendRegistry
unfolding call
run default_model [] = record { by_id = []; default_model = default_model }
run default_model (c ∷ hist) = call c (run default_model hist)

-- Whether the backend has been added and not removed since.
abbrev pub is_present : Text → List Call → Bool
is_present k [] = false
is_present k (added id url model ∷ hist) = if id == k then true else is_present k hist
is_present k (removed id ∷ hist) = if id == k then false else is_present k hist
is_present k (health id h ∷ hist) = is_present k hist
is_present k (draining id d ∷ hist) = is_present k hist

-- Whether a call of `add` is of the backend, and it was not there before.
abbrev pub is_new : Text → Text → List Call → Bool
is_new k id hist = (id == k) && not (is_present k hist)

-- What the last health report of the backend says, since it was last new.
abbrev pub last_health : Text → List Call → Bool
last_health k [] = false
last_health k (added id url model ∷ hist) = if is_new k id hist then false else last_health k hist
last_health k (removed id ∷ hist) = last_health k hist
last_health k (health id h ∷ hist) = if id == k then h else last_health k hist
last_health k (draining id d ∷ hist) = last_health k hist

-- Whether the backend was last drained or undrained, since it was last new.
abbrev pub last_draining : Text → List Call → Bool
last_draining k [] = false
last_draining k (added id url model ∷ hist) =
    if is_new k id hist then false else last_draining k hist
last_draining k (removed id ∷ hist) = last_draining k hist
last_draining k (health id h ∷ hist) = last_draining k hist
last_draining k (draining id d ∷ hist) = if id == k then d else last_draining k hist

-- The model that the backend was given when it was last new.
abbrev pub last_model : Text → Text → List Call → Text
last_model dm k [] = dm
last_model dm k (added id url model ∷ hist) =
    if is_new k id hist then model_or model dm else last_model dm k hist
last_model dm k (removed id ∷ hist) = last_model dm k hist
last_model dm k (health id h ∷ hist) = last_model dm k hist
last_model dm k (draining id d ∷ hist) = last_model dm k hist

-- An entry of the registry is what a history says.
abbrev Tells : Bool → Bool → Bool → Text → Option Backend → Type 0
Tells present h d m none = present ≡ false
Tells present h d m (some b) = (present ≡ true) × (b.healthy ≡ h) × (b.draining ≡ d) × (b.model ≡ m)

default-run : (dm : Text) (hist : List Call) → (run dm hist).default_model ≡ dm
unfolding run add remove set_health set_draining
default-run dm [] = refl
default-run dm (added id url model ∷ hist) = ground (arith, default-run dm hist)
default-run dm (removed id ∷ hist) = default-run dm hist
default-run dm (health id h ∷ hist) = ground (arith, default-run dm hist)
default-run dm (draining id d ∷ hist) = ground (arith, default-run dm hist)

run-IsValid : (dm : Text) (hist : List Call) → IsValid (run dm hist)
unfolding run
run-IsValid dm [] = record { distinct = tt; named = tt }
run-IsValid dm (added id url model ∷ hist) =
    add-IsValid id url model (run dm hist) (run-IsValid dm hist)
run-IsValid dm (removed id ∷ hist) = remove-IsValid id (run dm hist) (run-IsValid dm hist)
run-IsValid dm (health id h ∷ hist) = set_health-IsValid id h (run dm hist) (run-IsValid dm hist)
run-IsValid dm (draining id d ∷ hist) =
    set_draining-IsValid id d (run dm hist) (run-IsValid dm hist)

-- The entry of a backend after a call that names a backend.
abbrev after_add : Text → Text → Text → Option Text → Option Backend → Option Backend
after_add dm id url model none =
    some (record (new_backend id url (model_or model dm)) { healthy = false })
after_add dm id url model (some b) = some (record b { url = url })

get-add :
    (k id url : Text) (model : Option Text) (r : BackendRegistry)
    → Dict.get k (add id url model r).0.by_id ≡ (
        if id == k
        then after_add r.default_model id url model (Dict.get id r.by_id)
        else Dict.get k r.by_id)
unfolding add
get-add k id url model r = elim (Option-cases (Dict.get id r.by_id)) [
  | inl absent ↦ rw (absent, add) (get-set id k _ r.by_id)
  | inr (b, found) ↦ rw (found, add) (get-set id k _ r.by_id)
]

-- The entry of a backend after a report on a backend that may be there.
abbrev changed : (Backend → Backend) → Option Backend → Option Backend
changed f none = none
changed f (some b) = some (f b)

unchanged :
    (k id : Text) (d : Dict Text Backend)
    → Dict.get id d ≡ none
    → Dict.get k d ≡ (if id == k then none else Dict.get k d)
unchanged k id d absent = ground (arith, eq_iff id k, absent, ap (λ i. Dict.get i d))

get-set_health :
    (k id : Text) (h : Bool) (r : BackendRegistry)
    → Dict.get k (set_health id h r).by_id ≡ (
        if id == k
        then changed (λ b. record b { healthy = h }) (Dict.get id r.by_id)
        else Dict.get k r.by_id)
unfolding set_health
get-set_health k id h r = elim (Option-cases (Dict.get id r.by_id)) [
  | inl absent ↦ rw (absent, set_health) (unchanged k id r.by_id absent)
  | inr (b, found) ↦ rw (found, set_health) (get-set id k _ r.by_id)
]

get-set_draining :
    (k id : Text) (d : Bool) (r : BackendRegistry)
    → Dict.get k (set_draining id d r).0.by_id ≡ (
        if id == k
        then changed (λ b. record b { draining = d }) (Dict.get id r.by_id)
        else Dict.get k r.by_id)
unfolding set_draining
get-set_draining k id d r = elim (Option-cases (Dict.get id r.by_id)) [
  | inl absent ↦ rw (absent, set_draining) (unchanged k id r.by_id absent)
  | inr (b, found) ↦ rw (found, set_draining) (get-set id k _ r.by_id)
]

Tells-add :
    (present h d : Bool) (m dm k url : Text) (model : Option Text) (o : Option Backend)
    → Tells present h d m o
    → Tells true
        (if not present then false else h)
        (if not present then false else d)
        (if not present then model_or model dm else m)
        (after_add dm k url model o)
Tells-add present h d m dm k url model none t = rw t (refl, refl, refl, refl)
Tells-add present h d m dm k url model (some b) t = rw t.0 (refl, t.1, t.2, t.3)

Tells-health :
    (present h d now : Bool) (m : Text) (o : Option Backend)
    → Tells present h d m o
    → Tells present now d m (changed (λ b. record b { healthy = now }) o)
Tells-health present h d now m none t = t
Tells-health present h d now m (some b) t = (t.0, refl, t.2, t.3)

Tells-draining :
    (present h d now : Bool) (m : Text) (o : Option Backend)
    → Tells present h d m o
    → Tells present h now m (changed (λ b. record b { draining = now }) o)
Tells-draining present h d now m none t = t
Tells-draining present h d now m (some b) t = (t.0, t.1, refl, t.3)

run-Tells :
    (dm k : Text) (hist : List Call)
    → Tells
        (is_present k hist)
        (last_health k hist)
        (last_draining k hist)
        (last_model dm k hist)
        (Dict.get k (run dm hist).by_id)
unfolding run Dict.get remove
run-Tells dm k [] = refl
run-Tells dm k (added id url model ∷ hist) = elim (Bool-cases (id == k)) [
  | inl same ↦
      let q = (eq_iff id k).0 same in
      rw (get-add k id url model (run dm hist), same, q, default-run dm hist)
        (Tells-add (is_present k hist) _ _ _ dm k url model _ (run-Tells dm k hist))
  | inr other ↦ rw (get-add k id url model (run dm hist), other) (run-Tells dm k hist)
]
run-Tells dm k (removed id ∷ hist) = elim (Bool-cases (id == k)) [
  | inl same ↦ rw (get-remove id k (run dm hist).by_id, same) refl
  | inr other ↦ rw (get-remove id k (run dm hist).by_id, other) (run-Tells dm k hist)
]
run-Tells dm k (health id h ∷ hist) = elim (Bool-cases (id == k)) [
  | inl same ↦
      let q = (eq_iff id k).0 same in
      rw (get-set_health k id h (run dm hist), same, q)
        (Tells-health _ _ _ h _ _ (run-Tells dm k hist))
  | inr other ↦ rw (get-set_health k id h (run dm hist), other) (run-Tells dm k hist)
]
run-Tells dm k (draining id d ∷ hist) = elim (Bool-cases (id == k)) [
  | inl same ↦
      let q = (eq_iff id k).0 same in
      rw (get-set_draining k id d (run dm hist), same, q)
        (Tells-draining _ _ _ d _ _ (run-Tells dm k hist))
  | inr other ↦ rw (get-set_draining k id d (run dm hist), other) (run-Tells dm k hist)
]

-- Whether a model is the one that is asked for, if one is.
abbrev pub is_asked : Option Text → Text → Bool
is_asked none m = true
is_asked (some asked) m = asked == m

routable-Tells :
    (model : Option Text) (present h d : Bool) (m : Text) (o : Option Backend)
    → Tells present h d m o
    → is_routable_at model o ≡ (present && (h && (not d && is_asked model m)))
routable-Tells model present h d m none t = rw t refl
routable-Tells none present h d m (some b) t = ground (arith, t)
routable-Tells (some asked) present h d m (some b) t =
    ground (arith, t.0, t.1, t.2, ap (λ x. asked == x) t.3)

-- After any sequence of additions, removals, health reports and drain calls on a registry that was
-- empty, `ids_for` lists a backend exactly if it has been added and not removed since, and, since it was
-- last new, its last health report was good, it was not drained or was undrained again, and the model
-- that it was given is the one that is asked for, if one is: whatever the calls said of other backends.
pub contains-run :
    (model : Option Text) (dm k : Text) (hist : List Call)
    → contains k (ids_for model (run dm hist)) ≡ (
        is_present k hist
        && (last_health k hist
            && (not (last_draining k hist) && is_asked model (last_model dm k hist))))
contains-run model dm k hist =
    contains-ids_for model k (run dm hist) (run-IsValid dm hist)
    ∙ routable-Tells model _ _ _ _ _ (run-Tells dm k hist)
