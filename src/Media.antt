-- ===== src/Media.antt =====
-- gateway/multimodal/index.py: which media every backend has cached, as a least-recently-used table.
mod Tables
mod Tests
use llm_inference.Base.{ℕ, ◌+◌, Bool, List, [], ◌∷◌, if◌then◌else◌, nat_eq}
use llm_inference.Base.Text.{Text, text_eq}
use llm_inference.Base.Dict
use llm_inference.Base.Dict.{Dict}
use llm_inference.Base.Lru.{evict, touch}

pub record MediaAffinityIndex : Type 0 where
  pub capacity : ℕ
  pub by_backend : Dict Text (Dict ℕ (Unit {0}))

abbrev pub cache_of : MediaAffinityIndex → Text → Dict ℕ (Unit {0})
cache_of x b = Dict.get_or b [] x.by_backend

unfoldable pub touch_all : List ℕ → Dict ℕ (Unit {0}) → Dict ℕ (Unit {0})
touch_all [] c = c
touch_all (mid ∷ ids) c = touch_all ids (touch mid tt c)

-- `record` of the source, which is a reserved word here.
unfoldable pub record_ids : Text → List ℕ → MediaAffinityIndex → MediaAffinityIndex
record_ids b ids x = record x {
  by_backend = Dict.set b (evict x.capacity (touch_all ids (cache_of x b))) x.by_backend;
}

unfoldable pub is_cached : MediaAffinityIndex → Text → ℕ → Bool
is_cached x b mid = Dict.has mid (cache_of x b)

unfoldable pub count_in : Dict ℕ (Unit {0}) → List ℕ → ℕ
count_in c [] = 0
count_in c (mid ∷ ids) = let rest = count_in c ids in if Dict.has mid c then rest + 1 else rest

unfoldable pub overlap : MediaAffinityIndex → Text → List ℕ → ℕ
unfolding count_in
overlap x b ids = count_in (cache_of x b) ids

unfoldable pub remove_backend : Text → MediaAffinityIndex → MediaAffinityIndex
remove_backend b x = record x { by_backend = Dict.remove b x.by_backend }
