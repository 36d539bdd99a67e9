-- ===== src/Registry/Adapters.antt =====
-- gateway/extensions/lora.py: which backends have which adapter, and the choice by adapter.
use llm_inference.Base.{
  ℕ, ◌≡◌, Bool, true, false, ◌&&◌, not, Option, none, some, List, [], ◌∷◌, arith, ◌==◌, eq_iff,
  if◌then◌else◌, contains, filter, list_cases, inl, inr, Bool-cases,
}
use llm_inference.Base.Text.{Text, text_eq, strip, split, partition}
use llm_inference.Base.Dict
use llm_inference.Base.Dict.{Dict}
use llm_inference.Registry.{Backend, BackendRegistry, ids_for, has_adapter, lora_filter}

abbrev is_empty : Text → Bool
is_empty [] = true
is_empty (c ∷ s) = false

-- `{a.strip() for a in adapters.split(",") if a.strip()}`, of which only membership is used.
unfoldable pub adapter_set : List Text → List Text
adapter_set [] = []
adapter_set (a ∷ names) =
    let rest = adapter_set names in if is_empty (strip a) then rest else strip a ∷ rest

abbrev set_nonempty : Text → List Text → Dict Text (List Text) → Dict Text (List Text)
set_nonempty bid [] out = out
set_nonempty bid (a ∷ names) out = Dict.set bid (a ∷ names) out

-- One segment "b0:adapter1,adapter2", stripped; a malformed one is dropped.
unfoldable pub add_segment : Text → Dict Text (List Text) → Dict Text (List Text)
unfolding adapter_set
add_segment seg out =
    let (bid, found, adapters) = partition b':' seg in
    if found && not (is_empty (strip bid))
    then set_nonempty (strip bid) (adapter_set (split b',' adapters)) out
    else out

unfoldable pub add_segments : List Text → Dict Text (List Text) → Dict Text (List Text)
add_segments [] out = out
add_segments (seg ∷ segs) out = add_segments segs (add_segment (strip seg) out)

unfoldable pub parse_adapter_config : Text → Dict Text (List Text)
parse_adapter_config [] = []
parse_adapter_config (c ∷ spec) = add_segments (split b';' (c ∷ spec)) []

abbrev with_adapters : Option (List Text) → Backend → Backend
with_adapters none b = b
with_adapters (some names) b = record b { adapters = names }

unfoldable pub attach : Dict Text (List Text) → Dict Text Backend → Dict Text Backend
attach parsed [] = []
attach parsed ((k, b) ∷ d) = (k, with_adapters (Dict.get b.id parsed) b) ∷ attach parsed d

unfoldable pub apply_adapter_config : Text → BackendRegistry → BackendRegistry
apply_adapter_config spec r = record r { by_id = attach (parse_adapter_config spec) r.by_id }

contains-filter :
    (t : Text → Bool) (x : Text) (xs : List Text)
    → contains x (filter t xs) ≡ true
    → (contains x xs ≡ true) × (t x ≡ true)
unfolding contains
contains-filter t x [] h = ground (arith, h)
contains-filter t x (y ∷ xs) h = elim (Bool-cases (t y)) [
  | inl keep ↦
      let h' = rw (keep, contains) at h in
      elim (Bool-cases (y == x)) [
        | inl here ↦ let e : y ≡ x = (eq_iff y x).0 here in (ground (arith, here), rw e at keep)
        | inr there ↦
            let rest = contains-filter t x xs (ground (arith, h', there)) in
            (ground (arith, rest.0), rest.1)
      ]
  | inr drop ↦
      let h' = rw drop at h in
      let rest = contains-filter t x xs h' in (ground (arith, rest.0), rest.1)
]

filter-contains :
    (t : Text → Bool) (x : Text) (xs : List Text)
    → contains x xs ≡ true
    → t x ≡ true
    → contains x (filter t xs) ≡ true
unfolding contains
filter-contains t x [] h p = h
filter-contains t x (y ∷ xs) h p = elim (Bool-cases (y == x)) [
  | inl here ↦
      let e : y ≡ x = (eq_iff y x).0 here in
      let keep : t y ≡ true = rw e p in rw keep (ground (arith, here))
  | inr there ↦
      let rest = filter-contains t x xs (ground (arith, h, there)) p in ground (arith, rest)
]

-- A request for an adapter goes only to routable backends of the base model; and names soon names one of
-- these, `j`, has the adapter, only to those that have it.
pub lora_filter_lem :
    (r : BackendRegistry) (base : Option Text) (c : ℕ) (a : Text) (fallback : Bool) (id : Text)
    → contains id (lora_filter r base (some (c ∷ a)) fallback) ≡ true
    → (contains id (ids_for base r) ≡ true)
      × ((j : Text)
          → contains j (ids_for base r) ≡ true
          → has_adapter (c ∷ a) (Dict.get j r.by_id) ≡ true
          → has_adapter (c ∷ a) (Dict.get id r.by_id) ≡ true)
unfolding lora_filter contains
lora_filter_lem r base c a fallback id h =
    let has : Text → Bool = λ b. has_adapter (c ∷ a) (Dict.get b r.by_id) in
    elim (list_cases (filter has (ids_for base r))) [
      | inl empty ↦ (
        elim (Bool-cases fallback) [
          | inl allowed ↦ rw (empty, allowed) at h
          | inr denied ↦
              let nowhere = rw (empty, denied, contains) at h in absurd (ground (arith, nowhere))
        ],
        λ j m p.
            let none_has = rw (empty, contains) at (filter-contains has j (ids_for base r) m p) in
            absurd (ground (arith, none_has)),
      )
      | inr (k, ks, some_capable) ↦
          let found =
            contains-filter has id (ids_for base r) (rw some_capable (rw some_capable at h)) in
          (found.0, λ j m p. found.1)
    ]
