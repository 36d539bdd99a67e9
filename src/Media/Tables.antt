-- ===== src/Media/Tables.antt =====
-- gateway/multimodal/index.py: what a recording leaves in the table.
use llm_inference.Base.{
  ℕ, ◌<◌, ◌≡◌, refl, ◌++◌, Bool, true, false, Option, none, some, List, [], ◌∷◌, nat_eq, beq_refl,
  arith,
}
use llm_inference.Base.Text.{Text, text_eq}
use llm_inference.Base.Dict.{Dict, get_or-set, has-get}
use llm_inference.Base.Lru.{evict, touch, get-evict-touch}
use llm_inference.Media.{MediaAffinityIndex, cache_of, touch_all, record_ids, is_cached}

abbrev is_there : Option (Unit {0}) → Bool
is_there none = false
is_there (some u) = true

touch_all-snoc :
    (mid : ℕ) (ids : List ℕ) (c : Dict ℕ (Unit {0}))
    → touch_all (ids ++ mid ∷ []) c ≡ touch mid tt (touch_all ids c)
unfolding touch_all
touch_all-snoc mid [] c = refl
touch_all-snoc mid (i ∷ ids) c = touch_all-snoc mid ids (touch i tt c)

-- With room for one, the medium that a backend was given last is cached there.
pub is_cached-record_ids :
    (b : Text) (mid : ℕ) (ids : List ℕ) (x : MediaAffinityIndex)
    → 0 < x.capacity
    → is_cached (record_ids b (ids ++ mid ∷ []) x) b mid ≡ true
unfolding is_cached record_ids
is_cached-record_ids b mid ids x room =
    rw
      (
        get_or-set b b (evict x.capacity (touch_all (ids ++ mid ∷ []) (cache_of x b))) []
            x.by_backend,
        beq_refl b,
        touch_all-snoc mid ids (cache_of x b),
      )
      (ground (
        arith,
        has-get mid (evict x.capacity (touch mid tt (touch_all ids (cache_of x b)))),
        get-evict-touch x.capacity mid tt (touch_all ids (cache_of x b)) room,
      ))
