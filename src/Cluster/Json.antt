-- ===== src/Cluster/Json.antt =====
-- The values that `json.loads` gives for the events of gateway/cluster/events.py, and the reads that
-- `from_json` makes of them. `none` is an exception: a missing key, or a value of another type than
-- the class declares. Numbers are natural.
use llm_inference.Base.{
  ℕ, ◌≡◌, refl, Bool, true, false, Option, none, some, List, [], ◌∷◌, ◌==◌, nat_eq, if◌then◌else◌,
  ltb,
}
use llm_inference.Base.Text.{Text, text_eq}
use llm_inference.Base.Dict.{Dict}

mutual
  pub data Json : Type 0 where
    null : Json
    bool : Bool → Json
    num : ℕ → Json
    str : Text → Json
    arr : Items → Json
    obj : Fields → Json

  pub data Items : Type 0 where
    nil : Items
    item : Json → Items → Items

  pub data Fields : Type 0 where
    end : Fields
    field : Text → Json → Fields → Fields

infixl 5 ◌>>=◌
abbrev pub ◌>>=◌ {ℓ κ} : {A : Type ℓ} {B : Type κ} → Option A → (A → Option B) → Option B
none >>= f = none
some a >>= f = f a

-- `d.get(k)`
abbrev pub find : Text → Fields → Option Json
find k end = none
find k (field j v fs) = if j == k then some v else find k fs

abbrev pub as_obj : Json → Option Fields
as_obj (obj fs) = some fs
as_obj null = none
as_obj (bool b) = none
as_obj (num n) = none
as_obj (str s) = none
as_obj (arr xs) = none

abbrev pub as_text : Json → Option Text
as_text (str s) = some s
as_text null = none
as_text (bool b) = none
as_text (num n) = none
as_text (arr xs) = none
as_text (obj fs) = none

-- `int(v)`, of a number or a Boolean
abbrev pub as_num : Json → Option ℕ
as_num (num n) = some n
as_num (bool true) = some 1
as_num (bool false) = some 0
as_num null = none
as_num (str s) = none
as_num (arr xs) = none
as_num (obj fs) = none

-- `bool(v)`
abbrev pub truthy : Json → Bool
truthy null = false
truthy (bool b) = b
truthy (num n) = ltb 0 n
truthy (str []) = false
truthy (str (c ∷ s)) = true
truthy (arr nil) = false
truthy (arr (item x xs)) = true
truthy (obj end) = false
truthy (obj (field k v fs)) = true

-- `d["k"]`, and the same as a `str` and as an `int`
abbrev pub read : Text → Fields → Option Json
read k fs = find k fs

abbrev pub read_text : Text → Fields → Option Text
read_text k fs = find k fs >>= as_text

abbrev pub read_num : Text → Fields → Option ℕ
read_num k fs = find k fs >>= as_num

-- `d.get(k, default)`
abbrev pub read_text_or : Text → Text → Fields → Option Text
read_text_or k default fs = elim (find k fs) [ none ↦ some default | some v ↦ as_text v ]

abbrev pub read_num_or : Text → ℕ → Fields → Option ℕ
read_num_or k default fs = elim (find k fs) [ none ↦ some default | some v ↦ as_num v ]

-- `list(d.get(k) or [])`
abbrev pub as_items : Option Json → Option Items
as_items none = some nil
as_items (some (arr xs)) = some xs
as_items (some null) = some nil
as_items (some (bool b)) = if b then none else some nil
as_items (some (num n)) = if ltb 0 n then none else some nil
as_items (some (str [])) = some nil
as_items (some (str (c ∷ s))) = none
as_items (some (obj end)) = some nil
as_items (some (obj (field k v fs))) = none

-- `dict(d.get(k) or {})`
abbrev pub as_fields : Option Json → Option Fields
as_fields none = some end
as_fields (some (obj fs)) = some fs
as_fields (some null) = some end
as_fields (some (bool b)) = if b then none else some end
as_fields (some (num n)) = if ltb 0 n then none else some end
as_fields (some (str [])) = some end
as_fields (some (str (c ∷ s))) = none
as_fields (some (arr nil)) = some end
as_fields (some (arr (item x xs))) = none

module _ {A : Type 0} (put : A → Json) where
  unfoldable pub put_items : List A → Items
  put_items [] = nil
  put_items (x ∷ xs) = item (put x) (put_items xs)

  unfoldable pub put_fields : Dict Text A → Fields
  put_fields [] = end
  put_fields ((k, x) ∷ d) = field k (put x) (put_fields d)

module _ {A : Type 0} (take : Json → Option A) where
  unfoldable pub take_items : Items → Option (List A)
  take_items nil = some []
  take_items (item v vs) = take v >>= λ x. take_items vs >>= λ xs. some (x ∷ xs)

  unfoldable pub take_fields : Fields → Option (Dict Text A)
  take_fields end = some []
  take_fields (field k v fs) = take v >>= λ x. take_fields fs >>= λ d. some ((k, x) ∷ d)

module _ {A : Type 0} (put : A → Json) (take : Json → Option A) where
  pub take-put_items :
      ((x : A) → take (put x) ≡ some x)
      → (xs : List A) → take_items take (put_items put xs) ≡ some xs
  unfolding take_items put_items
  take-put_items h [] = refl
  take-put_items h (x ∷ xs) = rw (h x, take-put_items h xs) refl

  pub take-put_fields :
      ((x : A) → take (put x) ≡ some x)
      → (d : Dict Text A) → take_fields take (put_fields put d) ≡ some d
  unfolding take_fields put_fields
  take-put_fields h [] = refl
  take-put_fields h ((k, x) ∷ d) = rw (h x, take-put_fields h d) refl
