-- ===== src/Media/Tests.antt =====
-- A concrete cache of media.
use llm_inference.Base.{[], ◌∷◌}
use llm_inference.Base.Text.{text}
use llm_inference.Media.{MediaAffinityIndex}
use llm_inference.Base.{◌≡◌, refl, true, false}
use llm_inference.Media.{record_ids, is_cached}

abbrev index : MediaAffinityIndex
index = record { capacity = 2; by_backend = (text "b0", (7, tt) ∷ []) ∷ [] }

keeps_the_newest : is_cached (record_ids (text "b0") (8 ∷ 9 ∷ []) index) (text "b0") 9 ≡ true
unfolding is_cached llm_inference.Base.Dict.has llm_inference.Base.Dict.get_or record_ids
    llm_inference.Base.Dict.set llm_inference.Base.list_beq llm_inference.Base.Lru.evict
    llm_inference.Media.touch_all llm_inference.Base.Lru.touch llm_inference.Base.Dict.move_to_end
    llm_inference.Base.Dict.get llm_inference.Base.Dict.remove
keeps_the_newest = refl

drops_the_oldest : is_cached (record_ids (text "b0") (8 ∷ 9 ∷ []) index) (text "b0") 7 ≡ false
unfolding is_cached llm_inference.Base.Dict.has llm_inference.Base.Dict.get_or record_ids
    llm_inference.Base.Dict.set llm_inference.Base.list_beq llm_inference.Base.Lru.evict
    llm_inference.Media.touch_all llm_inference.Base.Lru.touch llm_inference.Base.Dict.move_to_end
    llm_inference.Base.Dict.get llm_inference.Base.Dict.remove
drops_the_oldest = refl
