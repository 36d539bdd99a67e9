-- ===== src/Registry/Laws.antt =====
-- gateway/backends.py: the answers of `ids_for`.
use llm_inference.Base.{
  ◌≡◌, ◌≢◌, refl, Bool, true, false, Option, none, some, [], ◌∷◌, arith, eq_iff, contains, sym, ap,
  ◌∙◌, inl, inr, Option-cases, Bool-cases,
}
use llm_inference.Base.Text.{Text, text_eq}
use llm_inference.Base.Dict
use llm_inference.Base.Dict.{Dict, IsDict, get-set, get-remove, set-IsDict, remove-IsDict}
use llm_inference.Registry.{
  Backend, BackendRegistry, add, remove, set_health, set_draining, is_routable, ids_in, ids_for,
}

abbrev pub IsNamed : Dict Text Backend → Type 0
IsNamed [] = Unit
IsNamed ((k, b) ∷ d) = (b.id ≡ k) × IsNamed d

-- Every backend stands under its own id, once.
pub record IsValid (r : BackendRegistry) : Type 0 where
  pub distinct : IsDict r.by_id
  pub named : IsNamed r.by_id

set-IsNamed :
    (k : Text) (b : Backend) (d : Dict Text Backend)
    → b.id ≡ k
    → IsNamed d
    → IsNamed (Dict.set k b d)
unfolding Dict.set
set-IsNamed k b [] e h = (e, tt)
set-IsNamed k b ((j, c) ∷ d) e h = ground (arith, set-IsNamed k b d e h.1)

remove-IsNamed : (k : Text) (d : Dict Text Backend) → IsNamed d → IsNamed (Dict.remove k d)
unfolding Dict.remove
remove-IsNamed k [] h = tt
remove-IsNamed k ((j, c) ∷ d) h = ground (arith, remove-IsNamed k d h.1)

pub id-get :
    (k : Text) (d : Dict Text Backend) (b : Backend) → IsNamed d → Dict.get k d ≡ some b → b.id ≡ k
unfolding Dict.get
id-get k [] b h e = ground arith
id-get k ((j, c) ∷ d) b h e = ground (arith, eq_iff j k, id-get k d b h.1)

-- A backend is written under its own id.
put-IsValid :
    (id : Text) (b : Backend) (r : BackendRegistry)
    → b.id ≡ id
    → IsValid r
    → IsValid (record r { by_id = Dict.set id b r.by_id })
put-IsValid id b r e v = record {
  distinct = set-IsDict id b r.by_id v.distinct;
  named = set-IsNamed id b r.by_id e v.named;
}

pub add-IsValid :
    (id url : Text) (model : Option Text) (r : BackendRegistry)
    → IsValid r
    → IsValid (add id url model r).0
unfolding add
add-IsValid id url model r v = elim (Option-cases (Dict.get id r.by_id)) [
  | inl absent ↦ rw (absent, add) (put-IsValid id _ r refl v)
  | inr (old, found) ↦ rw (found, add) (put-IsValid id _ r (id-get id r.by_id old v.named found) v)
]

pub set_draining-IsValid :
    (id : Text) (draining : Bool) (r : BackendRegistry)
    → IsValid r
    → IsValid (set_draining id draining r).0
unfolding set_draining
set_draining-IsValid id draining r v = elim (Option-cases (Dict.get id r.by_id)) [
  | inl absent ↦ rw (absent, set_draining) v
  | inr (old, found) ↦
      rw (found, set_draining) (put-IsValid id _ r (id-get id r.by_id old v.named found) v)
]

pub set_health-IsValid :
    (id : Text) (healthy : Bool) (r : BackendRegistry)
    → IsValid r
    → IsValid (set_health id healthy r)
unfolding set_health
set_health-IsValid id healthy r v = elim (Option-cases (Dict.get id r.by_id)) [
  | inl absent ↦ rw (absent, set_health) v
  | inr (old, found) ↦
      rw (found, set_health) (put-IsValid id _ r (id-get id r.by_id old v.named found) v)
]

pub remove-IsValid : (id : Text) (r : BackendRegistry) → IsValid r → IsValid (remove id r).0
unfolding remove
remove-IsValid id r v = record {
  distinct = remove-IsDict id r.by_id v.distinct;
  named = remove-IsNamed id r.by_id v.named;
}

abbrev pub is_routable_at : Option Text → Option Backend → Bool
is_routable_at model none = false
is_routable_at model (some b) = is_routable model b

ids_in_absent :
    (model : Option Text) (id : Text) (d : Dict Text Backend)
    → IsNamed d
    → Dict.get id d ≡ none
    → contains id (ids_in model d) ≡ false
unfolding ids_in contains Dict.get
ids_in_absent model id [] named a = refl
ids_in_absent model id ((k, b) ∷ d) named a = elim (Bool-cases (is_routable model b)) [
  | inl here ↦
      rw here (unfold contains in ground (arith, eq_iff k id, ids_in_absent model id d named.1))
  | inr gone ↦ rw gone (ground (arith, ids_in_absent model id d named.1))
]

contains-ids_in :
    (model : Option Text) (id : Text) (d : Dict Text Backend)
    → IsNamed d
    → IsDict d
    → contains id (ids_in model d) ≡ is_routable_at model (Dict.get id d)
unfolding ids_in contains Dict.get
contains-ids_in model id [] named h = refl
contains-ids_in model id ((k, b) ∷ d) named h =
    ground
      (arith, eq_iff k id, ids_in_absent model id d named.1, contains-ids_in model id d named.1 h.1)

-- In a valid registry `ids_for` lists a backend exactly if it is registered, healthy, not draining,
-- and of the model that is asked for, if one is.
pub contains-ids_for :
    (model : Option Text) (id : Text) (r : BackendRegistry)
    → IsValid r
    → contains id (ids_for model r) ≡ is_routable_at model (Dict.get id r.by_id)
unfolding ids_for
contains-ids_for model id r v = contains-ids_in model id r.by_id v.named v.distinct

-- Setting the draining flag of a backend touches the entry of that backend only.
pub get-set_draining :
    (id j : Text) (draining : Bool) (r : BackendRegistry)
    → id ≢ j
    → Dict.get j (set_draining id draining r).0.by_id ≡ Dict.get j r.by_id
unfolding set_draining
get-set_draining id j draining r ne = elim (Option-cases (Dict.get id r.by_id)) [
  | inl absent ↦ rw (absent, set_draining) refl
  | inr (b, found) ↦
      rw (found, set_draining)
        (ground (arith, get-set id j (record b { draining = draining }) r.by_id, eq_iff id j))
]

abbrev pub drained_at : Bool → Option Backend → Option Backend
drained_at draining none = none
drained_at draining (some b) = some (record b { draining = draining })

pub get-set_draining_same :
    (id : Text) (draining : Bool) (r : BackendRegistry)
    → Dict.get id (set_draining id draining r).0.by_id ≡ drained_at draining (Dict.get id r.by_id)
unfolding set_draining
get-set_draining_same id draining r = elim (Option-cases (Dict.get id r.by_id)) [
  | inl absent ↦ rw (absent, set_draining) absent
  | inr (b, found) ↦
      rw (found, set_draining)
        (ground (arith, get-set id id (record b { draining = draining }) r.by_id, eq_iff id id))
]

not_routable :
    (model : Option Text) (b : Option Backend) → is_routable_at model (drained_at true b) ≡ false
not_routable model none = refl
not_routable model (some b) = ground arith

-- In a valid registry, draining a backend takes it out of every answer of `ids_for`, for every model,
-- and leaves every other backend in the answers in which it was.
pub drain_round :
    (model : Option Text) (id : Text) (r : BackendRegistry)
    → IsValid r
    → (contains id (ids_for model (set_draining id true r).0) ≡ false)
      × ((j : Text)
          → id ≢ j
          → contains j (ids_for model (set_draining id true r).0) ≡ contains j (ids_for model r))
drain_round model id r v =
    let drained = set_draining-IsValid id true r v in
    (
      contains-ids_for model id _ drained
          ∙ ap (is_routable_at model) (get-set_draining_same id true r)
          ∙ not_routable model _,
      λ j ne.
          contains-ids_for model j _ drained
          ∙ ap (is_routable_at model) (get-set_draining id j true r ne)
          ∙ sym (contains-ids_for model j r v),
    )
