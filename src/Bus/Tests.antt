-- ===== src/Bus/Tests.antt =====
-- Concrete publications.
use llm_inference.Base.{ℕ, ◌≡◌, refl, true, List, [], ◌∷◌, ◌++◌}
use llm_inference.Base.Text.{Text, text_eq, text}
use llm_inference.Base.Dict
use llm_inference.Base.Dict.{Dict}
use llm_inference.Bus.{Event, drain}
use llm_inference.Bus.Delivery.{publish_all, foreign, drain-publish_all}

abbrev inboxes : Dict Text (List (Event ℕ))
inboxes = (text "r1", []) ∷ (text "r2", []) ∷ []

abbrev events : List (Event ℕ)
events =
    record { origin = text "r1"; payload = 1 } ∷ record { origin = text "r2"; payload = 2 } ∷ []

has_r1 : Dict.has (text "r1") inboxes ≡ true
unfolding Dict.has llm_inference.Base.list_beq
has_r1 = refl

drain-publish_all_example :
    ((drain (text "r1") (publish_all events inboxes)).1
      ≡ Dict.get_or (text "r1") [] inboxes ++ foreign (text "r1") events)
    × ((drain (text "r1") (drain (text "r1") (publish_all events inboxes)).0).1 ≡ [])
drain-publish_all_example = drain-publish_all (text "r1") events inboxes has_r1
