-- ===== src/Base/Text.antt =====
-- Python's `str` as the list of its code points, and the string methods that the source calls.
use Prim.Native.Char.{code}
use Prim.Native.String.{String}
use llm_inference.Base.Tests.{leb, ltb, if◌then◌else◌}
use llm_inference.Base.Classes.{Eq, ◌==◌, nat_eq, list_eq}
use Prim.Native.Nat.{ℕ, ◌+◌}
use mathlib.Core.Bool.{Bool, true, false, ◌&&◌, ◌||◌}
use mathlib.Core.List.{List, [], ◌∷◌, ◌++◌, map, reverse}
use mathlib.Core.Path.{◌≡◌, refl}
use native.Mathlib.Omega.{arith}

abbrev pub Text : Type 0
Text = List ℕ

instance abbrev pub text_eq : Eq Text
text_eq = list_eq

abbrev pub text : String → Text
text String.[] = []
text (String.◌∷◌ c s) = code c ∷ text s

-- The ASCII characters that `str.strip` and `str.split` take for white space.
unfoldable pub is_space : ℕ → Bool
is_space c = c == 32 || (leb 9 c && leb c 13) || (leb 28 c && leb c 31)

unfoldable pub lstrip : Text → Text
unfolding is_space
lstrip [] = []
lstrip (c ∷ s) = let rest = lstrip s in if is_space c then rest else c ∷ s

unfoldable pub strip : Text → Text
unfolding lstrip
strip s = reverse (lstrip (reverse (lstrip s)))

-- `str.lower` on ASCII letters; the source lowers tiers, roles and the word "bearer".
abbrev pub lower_code : ℕ → ℕ
lower_code c = if leb 65 c && leb c 90 then c + 32 else c

abbrev pub lower : Text → Text
lower = map lower_code

-- `s.partition(sep)` for a separator of one character; the flag says whether it was found.
unfoldable pub partition : ℕ → Text → Text × Bool × Text
partition sep [] = ([], false, [])
partition sep (c ∷ s) =
    let rest = partition sep s in if c == sep then ([], true, s) else (c ∷ rest.0, rest.1, rest.2)

-- `s.split(sep)`: the pieces between separators, of which there is always at least one.
unfoldable pub split_from : ℕ → Text → Text → List Text
split_from sep acc [] = acc ∷ []
split_from sep acc (c ∷ s) =
    let cut = acc ∷ split_from sep [] s in
    let go = split_from sep (acc ++ c ∷ []) s in if c == sep then cut else go

unfoldable pub split : ℕ → Text → List Text
unfolding split_from
split sep s = split_from sep [] s

-- `a < b` on `str`: lexicographic by code point.
unfoldable pub text_ltb : Text → Text → Bool
text_ltb [] [] = false
text_ltb [] (d ∷ t) = true
text_ltb (c ∷ s) [] = false
text_ltb (c ∷ s) (d ∷ t) = ltb c d || (c == d && text_ltb s t)

pub text_ltb_irrefl : (s : Text) → text_ltb s s ≡ false
unfolding text_ltb
text_ltb_irrefl [] = refl
text_ltb_irrefl (c ∷ s) = ground (arith, text_ltb_irrefl s)

pub text_ltb_trans :
    (s t u : Text) → text_ltb s t ≡ true → text_ltb t u ≡ true → text_ltb s u ≡ true
unfolding text_ltb
text_ltb_trans [] [] u p q = ground arith
text_ltb_trans [] (d ∷ t) [] p q = ground arith
text_ltb_trans [] (d ∷ t) (e ∷ u) p q = refl
text_ltb_trans (c ∷ s) [] u p q = ground arith
text_ltb_trans (c ∷ s) (d ∷ t) [] p q = ground arith
text_ltb_trans (c ∷ s) (d ∷ t) (e ∷ u) p q = ground (arith, text_ltb_trans s t u)

pub text_ltb_total : (s t : Text) → text_ltb s t ≡ false → text_ltb t s ≡ false → s ≡ t
unfolding text_ltb
text_ltb_total [] [] p q = refl
text_ltb_total [] (d ∷ t) p q = ground arith
text_ltb_total (c ∷ s) [] p q = ground arith
text_ltb_total (c ∷ s) (d ∷ t) p q = ground (arith, text_ltb_total s t)
