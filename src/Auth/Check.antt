-- ===== src/Auth/Check.antt =====
-- gateway/auth.py: who is let in.
use llm_inference.Base.{
  ◌≡◌, refl, Bool, true, false, ◌&&◌, ◌||◌, Option, none, some, List, [], ◌∷◌, ◌==◌, eq_iff,
  if◌then◌else◌, contains, arith, inl, inr, Bool-cases, Option-cases,
}
use llm_inference.Base.Text.{Text, text_eq}
use llm_inference.Auth.{
  Authenticator, Reason, missing, invalid, extract_bearer, is_ascii, compare_digest, any_equal,
  is_valid, answer_for, check,
}

-- Whether a text can be compared with each of a list.
abbrev pub is_comparable : Text → List Text → Bool
is_comparable key [] = true
is_comparable key (k ∷ ks) = (is_ascii key && is_ascii k) && is_comparable key ks

any_equal-contains :
    (key : Text) (ok : Bool) (ks : List Text)
    → any_equal key ok ks ≡ (if is_comparable key ks then some (ok || contains key ks) else none)
unfolding any_equal compare_digest contains
any_equal-contains key ok [] = ground arith
any_equal-contains key ok (k ∷ ks) =
    ground
      (arith, any_equal-contains key (if key == k then true else ok) ks, eq_iff key k, eq_iff k key)

-- What is decided about the bearer key of a request, in the order of the code's conditions but without
-- its loops.
abbrev pub decision : (Text → Text) → Authenticator → Option Text → Option (Bool × Option Reason)
decision sha256_hex a none = some (false, some missing)
decision sha256_hex a (some []) = some (false, some invalid)
decision sha256_hex a (some (c ∷ key)) =
    let digest = sha256_hex (c ∷ key) in
    if is_comparable (c ∷ key) a.keys && is_comparable digest a.hashes
    then (if contains (c ∷ key) a.keys || contains digest a.hashes
        then some (true, none)
        else some (false, some invalid))
    else none

is_valid-decision :
    (sha256_hex : Text → Text) (a : Authenticator) (key : Text)
    → answer_for sha256_hex (is_valid sha256_hex a (some key)) ≡ decision sha256_hex a (some key)
unfolding is_valid
is_valid-decision sha256_hex a [] = refl
is_valid-decision sha256_hex a (c ∷ key) = ground (
  arith,
  any_equal-contains (sha256_hex (c ∷ key)) (contains (c ∷ key) a.keys) a.hashes,
  any_equal-contains (c ∷ key) false a.keys,
)

-- If keys are required, a request is let in exactly if its bearer key is one of the keys, or the digest
-- of it one of the digests; it is refused as missing without a key, and as invalid with another one.
-- The check raises exactly if there is a key, and one of the comparisons is with a text, or of a text,
-- that is not ASCII. If no key is required, every request is let in.
pub check_lem :
    (sha256_hex : Text → Text) (a : Authenticator) (auth : Text)
    → check sha256_hex a auth
      ≡ (if a.require then decision sha256_hex a (extract_bearer auth) else some (true, none))
unfolding check
check_lem sha256_hex a auth = elim (Bool-cases a.require) [
  | inr open_to_all ↦ rw open_to_all
  | inl needed ↦ elim (Option-cases (extract_bearer auth)) [
    | inl no_key ↦ rw (needed, no_key, check)
    | inr (key, given) ↦ rw (needed, given, check) (is_valid-decision sha256_hex a key)
  ]
]
