-- ===== src/Registry.antt =====
-- gateway/backends.py and gateway/extensions/lora.py: the backend registry, and the choice of the
-- backends that may serve a request.
pub mod Laws
mod Runs
mod Adapters
mod Tests
use llm_inference.Base.{
  ℕ, Bool, true, false, not, ◌&&◌, ◌||◌, Option, none, some, List, [], ◌∷◌, map, ◌==◌,
  if◌then◌else◌, contains, filter,
}
use llm_inference.Base.Text.{Text, text_eq, text, strip, split, partition}
use llm_inference.Base.Dict
use llm_inference.Base.Dict.{Dict}

pub record Backend : Type 0 where
  pub id : Text
  pub url : Text
  pub model : Text
  pub healthy : Bool
  pub draining : Bool
  pub adapters : List Text

pub record BackendRegistry : Type 0 where
  pub by_id : Dict Text Backend
  pub default_model : Text

-- `Backend(id, url, model)`
abbrev pub new_backend : Text → Text → Text → Backend
new_backend id url model = record {
  id = id;
  url = url;
  model = model;
  healthy = true;
  draining = false;
  adapters = [];
}

-- One pair "id=url" of the configuration; an empty one is skipped.
unfoldable pub add_pair : Text → Dict Text Backend → Text → Dict Text Backend
add_pair model d [] = d
add_pair model d (c ∷ pair) =
    let (bid, found, url) = partition b'=' (c ∷ pair) in
    Dict.set (strip bid) (new_backend (strip bid) (strip url) model) d

unfoldable pub add_pairs : Text → Dict Text Backend → List Text → Dict Text Backend
unfolding add_pair
add_pairs model d [] = d
add_pairs model d (pair ∷ pairs) = add_pairs model (add_pair model d (strip pair)) pairs

-- The constructor, over the configured pairs and the default model.
unfoldable pub init : Text → Text → BackendRegistry
unfolding add_pairs
init backends model = record {
  by_id = add_pairs model [] (split b',' backends);
  default_model = model;
}

-- `model or self._default_model`
abbrev pub model_or : Option Text → Text → Text
model_or none default_model = default_model
model_or (some []) default_model = default_model
model_or (some (c ∷ m)) default_model = c ∷ m

-- Returns the registry and whether the backend is new.
unfoldable pub add : Text → Text → Option Text → BackendRegistry → BackendRegistry × Bool
add id url model r = elim (Dict.get id r.by_id) [
  | none ↦ (
    record r {
      by_id =
          Dict.set id
            (record (new_backend id url (model_or model r.default_model)) { healthy = false })
            r.by_id;
    },
    true,
  )
  | some b ↦ (record r { by_id = Dict.set id (record b { url = url }) r.by_id }, false)
]

unfoldable pub remove : Text → BackendRegistry → BackendRegistry × Bool
remove id r = (record r { by_id = Dict.remove id r.by_id }, Dict.has id r.by_id)

unfoldable pub set_health : Text → Bool → BackendRegistry → BackendRegistry
set_health id healthy r = elim (Dict.get id r.by_id) [
  | none ↦ r
  | some b ↦ record r { by_id = Dict.set id (record b { healthy = healthy }) r.by_id }
]

-- Returns the registry and whether the backend exists.
unfoldable pub set_draining : Text → Bool → BackendRegistry → BackendRegistry × Bool
set_draining id draining r = elim (Dict.get id r.by_id) [
  | none ↦ (r, false)
  | some b ↦ (record r { by_id = Dict.set id (record b { draining = draining }) r.by_id }, true)
]

abbrev pub serves : Option Text → Backend → Bool
serves none b = true
serves (some m) b = m == b.model

abbrev pub is_routable : Option Text → Backend → Bool
is_routable model b = b.healthy && not b.draining && serves model b

unfoldable pub ids_in : Option Text → Dict Text Backend → List Text
ids_in model [] = []
ids_in model ((k, b) ∷ d) =
    let rest = ids_in model d in if is_routable model b then b.id ∷ rest else rest

unfoldable pub ids_for : Option Text → BackendRegistry → List Text
unfolding ids_in
ids_for model r = ids_in model r.by_id

-- `adapter in registry._by_id[bid].adapters`, for an id of the pool.
abbrev pub has_adapter : Text → Option Backend → Bool
has_adapter adapter none = false
has_adapter adapter (some b) = contains adapter b.adapters

abbrev pub fall_back : List Text → List Text → Bool → List Text
fall_back [] pool true = pool
fall_back [] pool false = []
fall_back (c ∷ capable) pool fallback = c ∷ capable

unfoldable pub lora_filter : BackendRegistry → Option Text → Option Text → Bool → List Text
lora_filter r base none fallback = ids_for base r
lora_filter r base (some []) fallback = ids_for base r
lora_filter r base (some (c ∷ a)) fallback =
    let pool = ids_for base r in
    fall_back (filter (λ b. has_adapter (c ∷ a) (Dict.get b r.by_id)) pool) pool fallback

-- `s.strip() or None`
abbrev or_none : Text → Option Text
or_none [] = none
or_none (c ∷ s) = some (c ∷ s)

-- The base model and the adapter of a request's model field.
unfoldable pub parse_model_spec : Option Text → Option Text × Option Text
parse_model_spec none = (none, none)
parse_model_spec (some []) = (none, none)
parse_model_spec (some (c ∷ m)) =
    let (base, found, adapter) = partition b':' (c ∷ m) in
    if found then (or_none (strip base), or_none (strip adapter)) else (some (c ∷ m), none)
