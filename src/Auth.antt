-- ===== src/Auth.antt =====
-- gateway/auth.py: the check of an API key. SHA-256 of the standard library is a parameter; `none` is
-- the TypeError that `hmac.compare_digest` raises on a string that is not ASCII.
mod Check
mod Tests
use llm_inference.Base.{
  ℕ, Bool, true, false, ◌&&◌, Option, none, some, List, [], ◌∷◌, ◌==◌, if◌then◌else◌, take, drop,
  ltb,
}
use llm_inference.Base.Text.{Text, text_eq, text, strip, lower, split}

pub data Reason : Type 0 where
  missing invalid : Reason

abbrev or_none : Text → Option Text
or_none [] = none
or_none (c ∷ s) = some (c ∷ s)

-- Given the Authorization header, empty where there is none.
unfoldable pub extract_bearer : Text → Option Text
extract_bearer auth =
    if lower (take 7 auth) == text "bearer " then or_none (strip (drop 7 auth)) else none

unfoldable pub stripped : List Text → List Text
stripped [] = []
stripped (k ∷ ks) = let rest = stripped ks in elim (strip k) [ [] ↦ rest | c ∷ s ↦ (c ∷ s) ∷ rest ]

unfoldable pub parse_api_keys : Text → List Text
unfolding stripped
parse_api_keys spec = stripped (split b',' spec)

-- The digests are stripped and in lower case, as the constructor leaves them.
pub record Authenticator : Type 0 where
  pub keys : List Text
  pub hashes : List Text
  pub require : Bool

abbrev pub is_ascii : Text → Bool
is_ascii [] = true
is_ascii (c ∷ s) = ltb c 128 && is_ascii s

-- `hmac.compare_digest` on two strings
unfoldable pub compare_digest : Text → Text → Option Bool
compare_digest a b = if is_ascii a && is_ascii b then some (a == b) else none

-- The loop, which looks at every key whatever it has found.
unfoldable pub any_equal : Text → Bool → List Text → Option Bool
unfolding compare_digest
any_equal key ok [] = some ok
any_equal key ok (k ∷ ks) = elim (compare_digest key k) [
  | none ↦ none
  | some equal ↦ any_equal key (if equal then true else ok) ks
]

module _ (sha256_hex : Text → Text) where
  unfoldable pub is_valid : Authenticator → Option Text → Option Bool
  is_valid a none = some false
  is_valid a (some []) = some false
  is_valid a (some (c ∷ key)) = elim (any_equal (c ∷ key) false a.keys) [
    | none ↦ none
    | some ok ↦ any_equal (sha256_hex (c ∷ key)) ok a.hashes
  ]

  -- What `check` returns for the validity of a key.
  abbrev pub answer_for : Option Bool → Option (Bool × Option Reason)
  answer_for none = none
  answer_for (some true) = some (true, none)
  answer_for (some false) = some (false, some invalid)

  unfoldable pub check : Authenticator → Text → Option (Bool × Option Reason)
  check a auth =
      if a.require
      then elim (extract_bearer auth) [
        | none ↦ some (false, some missing)
        | some key ↦ answer_for (is_valid a (some key))
      ]
      else some (true, none)
