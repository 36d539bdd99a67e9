-- ===== src/Auth/Tests.antt =====
-- Concrete keys, with a digest function that is easy to see through.
use llm_inference.Base.{true, [], ◌∷◌, ◌++◌}
use llm_inference.Base.Text.{Text, text}
use llm_inference.Auth.Check.{decision, check_lem}
use llm_inference.Auth.{Authenticator}
use llm_inference.Base.{◌≡◌, refl, false, some, none, Bool}
use llm_inference.Auth.{Reason, missing, invalid, check}

abbrev digest : Text → Text
digest key = text "h" ++ key

abbrev gate : Authenticator
gate = record { keys = text "k1" ∷ []; hashes = text "hk2" ∷ []; require = true }

accepts_hashed : check digest gate (text "Bearer k2") ≡ some (true, none)
unfolding check llm_inference.Auth.extract_bearer llm_inference.Base.list_beq
    llm_inference.Base.Text.strip llm_inference.Auth.is_valid llm_inference.Auth.any_equal
accepts_hashed = refl

rejects_unknown : check digest gate (text "Bearer k3") ≡ some (false, some invalid)
unfolding check llm_inference.Auth.extract_bearer llm_inference.Base.list_beq
    llm_inference.Base.Text.strip llm_inference.Auth.is_valid llm_inference.Auth.any_equal
rejects_unknown = refl

rejects_other_schemes : check digest gate (text "Basic k1") ≡ some (false, some missing)
unfolding check llm_inference.Auth.extract_bearer llm_inference.Base.list_beq
rejects_other_schemes = refl

-- A key that is not ASCII cannot be compared.
raises_on_accents : check digest gate (text "Bearer " ++ 233 ∷ []) ≡ none
unfolding check llm_inference.Auth.extract_bearer llm_inference.Base.list_beq
    llm_inference.Base.Text.strip llm_inference.Auth.is_valid llm_inference.Auth.any_equal
raises_on_accents = refl

check_lem_example : check digest gate (text "Bearer k2") ≡ decision digest gate (some (text "k2"))
unfolding llm_inference.Base.contains llm_inference.Auth.extract_bearer llm_inference.Base.list_beq
    llm_inference.Base.Text.strip
check_lem_example = check_lem digest gate (text "Bearer k2")
